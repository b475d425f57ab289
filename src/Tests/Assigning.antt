-- ===== src/Tests/Assigning.antt =====
-- Inputs for the theorems on what the scheduling calls leave in the kernel, and on the answers that the
-- client takes.
use libbaalue.Prelude.{
  zero, ◌≡◌, ap, pos_part, ◌≢◌, refl, Bool, true, false, some, List, [], ◌∷◌, ◌++◌, arith, All, ℤ,
  pos, negsuc,
}
use mathlib.Core.List.{Permᴰ}
use libbaalue.Fiber.{FiberElement, Event, set_affinity, set_scheduler}
use libbaalue.Fiber.Props.{
  calls, baa_set_schedule_props, set_all, set_one, report_if, report_affinity,
}
use libbaalue.Fiber.Assigned.{Props, assigned, own, Distinct}
use libbaalue.Fiber.Assignment.{baa_set_schedule_props-own, schedule_server-any_order}
use libbaalue.Fiber.Server.{baa_schedule_server_th}
use libbaalue.Fiber.ViaServer.{datagrams, bound_to}
use libbaalue.Fiber.Client.{Client, unix_addr, returned, baa_set_schedule_props_via_server}
use libbaalue.Fiber.Answers.{Answer, all_datagrams, messages_to, via_server-answers}
use libbaalue.Protocol.{ptype_error, ptype_cmd_ack}
use libbaalue.Tests.Scheduling.{good_os, bad_os, fiber_at, fibers, fibers-HasInts, kdo_path}

-- A kernel with one CPU, where any policy may be set.
abbrev pub one_cpu : Event → Bool
one_cpu (set_affinity tid (pos zero)) = true
one_cpu (set_scheduler tid policy priority) = true
one_cpu _ = false

pub fibers-Distinct : Distinct fibers
fibers-Distinct = ((λ e. let n : 1200 ≡ 1201 = ap pos_part e in absurd (omega arith), tt), (tt, tt))

-- The same fibers in the other order.
abbrev pub turned : List FiberElement
turned = fiber_at (pos 1201) (negsuc 0) (pos 2000) ∷ fiber_at (pos 1200) (pos 0) (pos 1000) ∷ []

-- What the threads had before.
abbrev old : Props
old = record { cpu = pos 1; policy = pos 0; priority = pos 0 }

baa_set_schedule_props-own_example :
    let made = calls (baa_set_schedule_props bad_os fibers []).1 in
    All (λ f. (p : Props) → assigned one_cpu f.kernel_tid made p ≡ own one_cpu f p) fibers
    × ((tid : ℤ) (p : Props)
        → All (λ f. tid ≢ f.kernel_tid) fibers
        → assigned one_cpu tid made p ≡ p)
baa_set_schedule_props-own_example =
    baa_set_schedule_props-own one_cpu bad_os good_os fibers fibers-Distinct

schedule_server-any_order_example :
    (h : List Event) × (baa_schedule_server_th bad_os (datagrams (λ f i. i) turned) [] ≡ some h)
    × ((tid : ℤ) (p : Props)
        → assigned one_cpu tid (calls h) p
          ≡ assigned one_cpu tid (calls (baa_set_schedule_props good_os fibers []).1) p)
schedule_server-any_order_example =
    schedule_server-any_order one_cpu bad_os good_os (λ f i. i) fibers turned
      ∣ Permᴰ.swap refl refl ∣₁ fibers-Distinct (fibers-HasInts.1.0, (fibers-HasInts.0, tt))

-- The second fiber's CPU is refused, and its policy is set.
refused_cpu :
    assigned one_cpu (pos 1201) (calls (baa_set_schedule_props good_os fibers []).1) old
    ≡ record { cpu = pos 1; policy = pos 1; priority = pos 80 }
unfolding baa_set_schedule_props set_all set_one report_if report_affinity
refused_cpu = refl

-- One fiber is answered by an error, from a stranger, and the other one after an acknowledgement by a
-- sender without a name.
abbrev answers : List Answer
answers =
    (record { acks = 0; sender = bound_to (b'x' ∷ []); last = ptype_error })
    ∷ (record { acks = 1; sender = []; last = ptype_cmd_ack })
    ∷ []

via_server-answers_example :
    (c : Client) × (baa_set_schedule_props_via_server
        (λ f i. i)
        (λ s. pos 17)
        fibers
        kdo_path
        170
        (all_datagrams answers ++ [])
      ≡ some (returned (pos 0) c))
    × (c.sent ≡ messages_to (λ f i. i) (unix_addr kdo_path) fibers answers)
    × (c.queue ≡ [])
via_server-answers_example =
    via_server-answers (λ f i. i) (λ s. pos 17) (λ s. refl) fibers answers [] kdo_path 170 refl
      ((λ e. absurd (omega arith), omega arith), ((λ e. absurd (omega arith), omega arith), tt))
