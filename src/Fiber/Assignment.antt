-- ===== src/Fiber/Assignment.antt =====
-- baa_set_schedule_props of src/fiber.c, called directly or through the server, by what it leaves in
-- the kernel for each thread.
use libbaalue.Prelude.{
  ℕ, ◌≡◌, ◌≢◌, refl, sym, ◌∙◌, ap, Bool, some, List, [], ◌∷◌, All, ℤ, eqb_ℤ_iff, eqb_ℤ_ne,
  Bool-cases, inl, inr,
}
use mathlib.Core.List.{Perm}
use libbaalue.Fiber.{FiberElement, HasInts, Event, set_affinity, set_scheduler, Os}
use libbaalue.Fiber.Props.{calls, calls_for, baa_set_schedule_props, baa_set_schedule_props_lem}
use libbaalue.Fiber.Assigned.{
  Props, assigned, assigned-cons, own, share, Apart, Distinct, Perm-Same,
}
use libbaalue.Fiber.Server.{baa_schedule_server_th}
use libbaalue.Fiber.ViaServer.{datagrams, server_run}

module _ (takes : Event → Bool) where
  share_self : (f : FiberElement) (p : Props) → share takes f.kernel_tid f p ≡ own takes f p
  share_self f p = rw ((eqb_ℤ_iff f.kernel_tid f.kernel_tid).1 refl)

  share_other :
      (tid : ℤ) (f : FiberElement) (p : Props) → tid ≢ f.kernel_tid → share takes tid f p ≡ p
  share_other tid f p apart = rw (eqb_ℤ_ne f.kernel_tid tid (λ e. apart (sym e)))

  own-own : (f : FiberElement) (p : Props) → own takes f (own takes f p) ≡ own takes f p
  own-own f p = elim (Bool-cases (takes (set_affinity f.kernel_tid f.cpu))) [
    | inl a ↦ elim (Bool-cases (takes (set_scheduler f.kernel_tid f.policy f.priority))) [
      | inl s ↦ rw (a, s)
      | inr s ↦ rw (a, s)
    ]
    | inr a ↦ elim (Bool-cases (takes (set_scheduler f.kernel_tid f.policy f.priority))) [
      | inl s ↦ rw (a, s)
      | inr s ↦ rw (a, s)
    ]
  ]

  untouched :
      (tid : ℤ) (fs : List FiberElement) (p : Props)
      → All (λ f. tid ≢ f.kernel_tid) fs
      → assigned takes tid (calls_for fs) p ≡ p
  untouched tid [] p h = refl
  untouched tid (f ∷ fs) p h =
      assigned-cons takes tid f fs p
      ∙ ap (assigned takes tid (calls_for fs)) (share_other tid f p h.0)
      ∙ untouched tid fs p h.1

  -- The thread of the first fiber gets its properties.
  first_own :
      (f : FiberElement) (fs : List FiberElement) (p : Props)
      → Apart f fs
      → assigned takes f.kernel_tid (calls_for (f ∷ fs)) p ≡ own takes f p
  first_own f fs p apart =
      assigned-cons takes f.kernel_tid f fs p
      ∙ untouched f.kernel_tid fs (share takes f.kernel_tid f p) apart
      ∙ share_self f p

  -- A fiber that the calls for another one do not touch.
  later_own :
      (g : FiberElement) (gs fs : List FiberElement)
      → Apart g fs
      → All (λ f. (p : Props) → assigned takes f.kernel_tid (calls_for gs) p ≡ own takes f p) fs
      → All
          (λ f. (p : Props) → assigned takes f.kernel_tid (calls_for (g ∷ gs)) p ≡ own takes f p)
          fs
  later_own g gs [] apart h = tt
  later_own g gs (f ∷ fs) apart h = (
    λ p.
        assigned-cons takes f.kernel_tid g gs p
        ∙ ap (assigned takes f.kernel_tid (calls_for gs))
            (share_other f.kernel_tid g p (λ e. apart.0 (sym e)))
        ∙ h.0 p,
    later_own g gs fs apart.1 h.1,
  )

  pub each_own :
      (fs : List FiberElement)
      → Distinct fs
      → All (λ f. (p : Props) → assigned takes f.kernel_tid (calls_for fs) p ≡ own takes f p) fs
  each_own [] d = tt
  each_own (f ∷ fs) d = (λ p. first_own f fs p d.0, later_own f fs fs d.0 (each_own fs d.1))

module _ (takes : Event → Bool) (os os' : Os) where
  -- For fibers with distinct kernel_tids, on every kernel that answers a call by its arguments:
  -- baa_set_schedule_props gives the thread of each fiber the properties of that fiber, as far as
  -- the kernel accepts its two calls, and leaves every other thread alone.
  pub baa_set_schedule_props-own :
      (fs : List FiberElement)
      → Distinct fs
      → let made = calls (baa_set_schedule_props os fs []).1 in
        All (λ f. (p : Props) → assigned takes f.kernel_tid made p ≡ own takes f p) fs
        × ((tid : ℤ) (p : Props) → All (λ f. tid ≢ f.kernel_tid) fs → assigned takes tid made p ≡ p)
  baa_set_schedule_props-own fs d =
      rw (baa_set_schedule_props_lem os fs []).1
        (each_own takes fs d, λ tid p apart. untouched takes tid fs p apart)

  -- For fibers with distinct kernel_tids and `int` fields, on such a kernel: the server, given the
  -- datagrams of the fibers in whatever order, leaves every thread as baa_set_schedule_props does
  -- that is called with the array itself.
  pub schedule_server-any_order :
      (junk : FiberElement → ℕ → ℕ) (fs gs : List FiberElement)
      → Perm fs gs
      → Distinct fs
      → All HasInts gs
      → (h : List Event) × (baa_schedule_server_th os (datagrams junk gs) [] ≡ some h)
        × ((tid : ℤ) (p : Props)
            → assigned takes tid (calls h) p
              ≡ assigned takes tid (calls (baa_set_schedule_props os' fs []).1) p)
  schedule_server-any_order junk fs gs q d ints =
      let (h, run, made, answered) = server_run os junk gs [] ints in
      (
        h,
        run,
        λ tid p.
            rw made (rw (baa_set_schedule_props_lem os' fs []).1 (sym (Perm-Same takes q d tid p))),
      )
