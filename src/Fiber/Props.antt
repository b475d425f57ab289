-- ===== src/Fiber/Props.antt =====
-- baa_set_schedule_props of src/fiber.c.
use libbaalue.Prelude.{
  ◌▷◌, ℕ, ◌≡◌, refl, ◌∙◌, ap, Bool, true, false, not, Option, none, some, List, [], ◌∷◌, ◌++◌,
  append_assoc, append-nil, arith, ◌==◌, if◌then◌else◌, ℤ, pos, Bool-cases, Option-cases, inl, inr,
}
use libbaalue.Fiber.{
  FiberElement, Report, cpu_not_set, no_physical_cpu, affinity_failed, policy_failed, Event,
  set_affinity, set_scheduler, send, print_configured, report, Os,
}

-- EINVAL of <errno.h> on Linux.
abbrev einval : ℕ
einval = 22

-- `h` and one more event.
-- A message that is printed on a condition.
unfoldable pub report_if : Bool → Report → List Event → List Event
report_if b r h = if b then h ▷ report r else h

-- The messages for the errno of sched_setaffinity.
unfoldable pub report_affinity : Option ℕ → ℤ → List Event → List Event
report_affinity none cpu h = h
report_affinity (some e) cpu h =
    if e == einval then h ▷ report (no_physical_cpu cpu) else h ▷ report affinity_failed

module _ (os : Os) where
  -- The body of the loop.
  unfoldable pub set_one : FiberElement → List Event → List Event
  set_one f h =
      let h = report_if (not (os.cpu_isset f.cpu)) (cpu_not_set f.cpu) h in
      let h = h ▷ set_affinity f.kernel_tid f.cpu in
      let h = report_affinity (os.affinity_errno h) f.cpu h in
      let h = h ▷ set_scheduler f.kernel_tid f.policy f.priority in
      report_if (os.scheduler_fails h) (policy_failed f.policy) h

  unfoldable pub set_all : List FiberElement → List Event → List Event
  set_all [] h = h
  set_all (f ∷ fs) h = set_all fs (set_one f h)

  -- The fibers are the first `count` of the array. The value returned, and the history.
  unfoldable pub baa_set_schedule_props : List FiberElement → List Event → ℤ × List Event
  baa_set_schedule_props fs h = (pos 0, set_all fs h)

-- The scheduling calls of a history, and of a fiber.
abbrev pub calls : List Event → List Event
calls [] = []
calls (set_affinity t c ∷ h) = set_affinity t c ∷ calls h
calls (set_scheduler t p n ∷ h) = set_scheduler t p n ∷ calls h
calls (send b ∷ h) = calls h
calls (print_configured t ∷ h) = calls h
calls (report r ∷ h) = calls h

abbrev pub calls_for : List FiberElement → List Event
calls_for [] = []
calls_for (f ∷ fs) =
    set_affinity f.kernel_tid f.cpu ∷ set_scheduler f.kernel_tid f.policy f.priority ∷ calls_for fs

-- The bytes sent.
abbrev pub sent : List Event → List ℕ
sent [] = []
sent (set_affinity t c ∷ h) = sent h
sent (set_scheduler t p n ∷ h) = sent h
sent (send b ∷ h) = b ∷ sent h
sent (print_configured t ∷ h) = sent h
sent (report r ∷ h) = sent h

pub calls-append : (g h : List Event) → calls (g ++ h) ≡ calls g ++ calls h
calls-append [] h = refl
calls-append (set_affinity t c ∷ g) h = ap (λ l. set_affinity t c ∷ l) (calls-append g h)
calls-append (set_scheduler t p n ∷ g) h = ap (λ l. set_scheduler t p n ∷ l) (calls-append g h)
calls-append (send b ∷ g) h = calls-append g h
calls-append (print_configured t ∷ g) h = calls-append g h
calls-append (report r ∷ g) h = calls-append g h

pub sent-append : (g h : List Event) → sent (g ++ h) ≡ sent g ++ sent h
sent-append [] h = refl
sent-append (set_affinity t c ∷ g) h = sent-append g h
sent-append (set_scheduler t p n ∷ g) h = sent-append g h
sent-append (send b ∷ g) h = ap (λ l. b ∷ l) (sent-append g h)
sent-append (print_configured t ∷ g) h = sent-append g h
sent-append (report r ∷ g) h = sent-append g h

pub ruleset history_laws = (calls-append, sent-append, append_assoc, append-nil)

pub calls-report_if : (b : Bool) (r : Report) (h : List Event) → calls (report_if b r h) ≡ calls h
unfolding report_if
calls-report_if true r h = simp history_laws
calls-report_if false r h = refl

pub sent-report_if : (b : Bool) (r : Report) (h : List Event) → sent (report_if b r h) ≡ sent h
unfolding report_if
sent-report_if true r h = simp history_laws
sent-report_if false r h = refl

calls-report_affinity :
    (e : Option ℕ) (cpu : ℤ) (h : List Event) → calls (report_affinity e cpu h) ≡ calls h
unfolding report_affinity
calls-report_affinity none cpu h = refl
calls-report_affinity (some e) cpu h = elim (Bool-cases (e == einval)) [
  | inl b ↦ rw b (simp history_laws)
  | inr b ↦ rw b (simp history_laws)
]

sent-report_affinity :
    (e : Option ℕ) (cpu : ℤ) (h : List Event) → sent (report_affinity e cpu h) ≡ sent h
unfolding report_affinity
sent-report_affinity none cpu h = refl
sent-report_affinity (some e) cpu h = elim (Bool-cases (e == einval)) [
  | inl b ↦ rw b (simp history_laws)
  | inr b ↦ rw b (simp history_laws)
]

ruleset report_laws = (calls-report_if, sent-report_if, calls-report_affinity, sent-report_affinity)

module _ (os : Os) where
  set_one-calls :
      (f : FiberElement) (h : List Event) → calls (set_one os f h) ≡ calls h ++ calls_for (f ∷ [])
  unfolding set_one
  set_one-calls f h = simp (history_laws, report_laws)

  set_one-sent : (f : FiberElement) (h : List Event) → sent (set_one os f h) ≡ sent h
  unfolding set_one
  set_one-sent f h = simp (history_laws, report_laws)

  -- Whatever the kernel answers, the call makes both scheduling calls for each fiber in the order
  -- of the array, sends nothing, and returns 0.
  pub baa_set_schedule_props_lem :
      (fs : List FiberElement) (h : List Event)
      → ((baa_set_schedule_props os fs h).0 ≡ pos 0)
        × (calls (baa_set_schedule_props os fs h).1 ≡ calls h ++ calls_for fs)
        × (sent (baa_set_schedule_props os fs h).1 ≡ sent h)
  unfolding baa_set_schedule_props set_all
  baa_set_schedule_props_lem [] h = (refl, simp append-nil, refl)
  baa_set_schedule_props_lem (f ∷ fs) h =
      let (zero_result, made, quiet) = baa_set_schedule_props_lem fs (set_one os f h) in
      (refl, made ∙ simp (set_one-calls, append_assoc), quiet ∙ set_one-sent f h)
