-- ===== src/Fiber/Assigned.antt =====
-- What the scheduling calls of src/fiber.c leave in the kernel: the properties of each thread.
-- The calls themselves are a history (Fiber.Props.calls); here the order of the calls is forgotten.
use libbaalue.Prelude.{
  ◌≡◌, ◌≢◌, refl, sym, ◌∙◌, ap, subst, Bool, List, [], ◌∷◌, ◌++◌, All, ℤ, eqb_ℤ, eqb_ℤ_iff,
  if◌then◌else◌, Bool-cases, inl, inr,
}
use mathlib.Core.List.{Perm, Permᴰ}
use mathlib.Core.Logic.{∥∥₁_elim}
use libbaalue.Fiber.{
  FiberElement, Event, set_affinity, set_scheduler, send, print_configured, report,
}
use libbaalue.Fiber.Props.{calls_for}

-- The properties of a thread that the two calls set.
pub record Props : Type 0 where
  pub cpu : ℤ
  pub policy : ℤ
  pub priority : ℤ

Props_set : IsSet Props
Props_set = hlevel

-- `takes` says which calls the kernel accepts; one that it refuses changes nothing.
module _ (takes : Event → Bool) where
  -- What an event does to the properties `p` of the thread `tid`.
  abbrev pub applied : ℤ → Event → Props → Props
  applied tid (set_affinity t c) p =
      if eqb_ℤ t tid then (if takes (set_affinity t c) then record p { cpu = c } else p) else p
  applied tid (set_scheduler t pol prio) p =
      if eqb_ℤ t tid
      then (if takes (set_scheduler t pol prio)
          then record p { policy = pol; priority = prio }
          else p)
      else p
  applied tid (send b) p = p
  applied tid (print_configured t) p = p
  applied tid (report r) p = p

  abbrev pub assigned : ℤ → List Event → Props → Props
  assigned tid [] p = p
  assigned tid (e ∷ h) p = assigned tid h (applied tid e p)

  -- The properties of a thread that had `p`, when those of the fiber `f` have been set.
  abbrev pub own : FiberElement → Props → Props
  own f p = record {
    cpu = if takes (set_affinity f.kernel_tid f.cpu) then f.cpu else p.cpu;
    policy = if takes (set_scheduler f.kernel_tid f.policy f.priority) then f.policy else p.policy;
    priority =
        if takes (set_scheduler f.kernel_tid f.policy f.priority) then f.priority else p.priority;
  }

-- No fiber of `fs` has the kernel_tid of `f`.
abbrev pub Apart : FiberElement → List FiberElement → Type 0
Apart f fs = All (λ g. f.kernel_tid ≢ g.kernel_tid) fs

-- No two fibers have the same kernel_tid.
abbrev pub Distinct : List FiberElement → Type 0
Distinct [] = Unit {0}
Distinct (f ∷ fs) = Apart f fs × Distinct fs

Permᴰ-All :
    (P : FiberElement → Type 0) {fs gs : List FiberElement} → Permᴰ fs gs → All P fs → All P gs
Permᴰ-All P Permᴰ.nil h = tt
Permᴰ-All P (Permᴰ.cons e q) h = (subst P e h.0, Permᴰ-All P q h.1)
Permᴰ-All P (Permᴰ.swap e e') h = (subst P e' h.1.0, (subst P e h.0, h.1.1))
Permᴰ-All P (Permᴰ.trans q r) h = Permᴰ-All P r (Permᴰ-All P q h)

Permᴰ-Distinct : {fs gs : List FiberElement} → Permᴰ fs gs → Distinct fs → Distinct gs
Permᴰ-Distinct Permᴰ.nil d = tt
Permᴰ-Distinct (Permᴰ.cons {a = a} {l₂ = gs} e q) d = (
  subst (λ f. Apart f gs) e (Permᴰ-All (λ g. a.kernel_tid ≢ g.kernel_tid) q d.0),
  Permᴰ-Distinct q d.1,
)
Permᴰ-Distinct (Permᴰ.swap {a} {b} {a'} {b'} {l = fs} e e') d =
    let (far, d') = d in
    (
      (
        λ q. far.0 (
            ap (λ (f : FiberElement). f.kernel_tid) e
            ∙ sym q
            ∙ sym (ap (λ (f : FiberElement). f.kernel_tid) e')),
        subst (λ f. Apart f fs) e' d'.0,
      ),
      (subst (λ f. Apart f fs) e far.1, d'.1),
    )
Permᴰ-Distinct (Permᴰ.trans q r) d = Permᴰ-Distinct r (Permᴰ-Distinct q d)

module _ (takes : Event → Bool) where
  pub assigned-append :
      (tid : ℤ) (g h : List Event) (p : Props)
      → assigned takes tid (g ++ h) p ≡ assigned takes tid h (assigned takes tid g p)
  assigned-append tid [] h p = refl
  assigned-append tid (e ∷ g) h p = assigned-append tid g h (applied takes tid e p)

  -- The two calls for a fiber are about its thread only.
  assigned-own :
      (tid : ℤ) (f : FiberElement) (p : Props)
      → assigned takes tid (calls_for (f ∷ [])) p
        ≡ (if eqb_ℤ f.kernel_tid tid then own takes f p else p)
  assigned-own tid f p = elim (Bool-cases (eqb_ℤ f.kernel_tid tid)) [
    | inr n ↦ rw n
    | inl y ↦ elim (Bool-cases (takes (set_affinity f.kernel_tid f.cpu))) [
      | inl a ↦ elim (Bool-cases (takes (set_scheduler f.kernel_tid f.policy f.priority))) [
        | inl s ↦ rw (y, a, s)
        | inr s ↦ rw (y, a, s)
      ]
      | inr a ↦ elim (Bool-cases (takes (set_scheduler f.kernel_tid f.policy f.priority))) [
        | inl s ↦ rw (y, a, s)
        | inr s ↦ rw (y, a, s)
      ]
    ]
  ]

  -- What a fiber does to the properties of a thread.
  abbrev pub share : ℤ → FiberElement → Props → Props
  share tid f p = if eqb_ℤ f.kernel_tid tid then own takes f p else p

  pub assigned-cons :
      (tid : ℤ) (f : FiberElement) (fs : List FiberElement) (p : Props)
      → assigned takes tid (calls_for (f ∷ fs)) p
        ≡ assigned takes tid (calls_for fs) (share tid f p)
  assigned-cons tid f fs p =
      assigned-append tid (calls_for (f ∷ [])) (calls_for fs) p
      ∙ ap (assigned takes tid (calls_for fs)) (assigned-own tid f p)

  share-share :
      (tid : ℤ) (f g : FiberElement) (p : Props)
      → f.kernel_tid ≢ g.kernel_tid
      → share tid f (share tid g p) ≡ share tid g (share tid f p)
  share-share tid f g p apart = elim (Bool-cases (eqb_ℤ f.kernel_tid tid)) [
    | inr n ↦ rw n
    | inl y ↦ elim (Bool-cases (eqb_ℤ g.kernel_tid tid)) [
      | inr n ↦ rw (y, n)
      | inl z ↦
          absurd (apart ((eqb_ℤ_iff f.kernel_tid tid).0 y ∙ sym ((eqb_ℤ_iff g.kernel_tid tid).0 z)))
    ]
  ]

  abbrev pub Same : List FiberElement → List FiberElement → Type 0
  Same fs gs =
      (tid : ℤ) (p : Props)
      → assigned takes tid (calls_for fs) p ≡ assigned takes tid (calls_for gs) p

  Permᴰ-Same : {fs gs : List FiberElement} → Permᴰ fs gs → Distinct fs → Same fs gs
  Permᴰ-Same Permᴰ.nil d tid p = refl
  Permᴰ-Same (Permᴰ.cons {a = a} {b = b} {l₁ = fs} {l₂ = gs} e q) d tid p =
      assigned-cons tid a fs p
      ∙ ap (λ f. assigned takes tid (calls_for fs) (share tid f p)) e
      ∙ Permᴰ-Same q d.1 tid (share tid b p)
      ∙ sym (assigned-cons tid b gs p)
  Permᴰ-Same (Permᴰ.swap {a} {b} {a'} {b'} {l = fs} e e') d tid p =
      assigned-cons tid a (b ∷ fs) p
      ∙ assigned-cons tid b fs (share tid a p)
      ∙ ap (assigned takes tid (calls_for fs)) (sym (share-share tid a b p d.0.0))
      ∙ ap (λ f. assigned takes tid (calls_for fs) (share tid f (share tid b p))) e
      ∙ ap (λ f. assigned takes tid (calls_for fs) (share tid b' (share tid f p))) e'
      ∙ sym (assigned-cons tid b' fs (share tid a' p))
      ∙ sym (assigned-cons tid a' (b' ∷ fs) p)
  Permᴰ-Same (Permᴰ.trans q r) d tid p =
      Permᴰ-Same q d tid p ∙ Permᴰ-Same r (Permᴰ-Distinct q d) tid p

  pub Perm-Same : {fs gs : List FiberElement} → Perm fs gs → Distinct fs → Same fs gs
  Perm-Same q d tid p = ∥∥₁_elim q (Props_set _ _) (λ r. Permᴰ-Same r d tid p)
