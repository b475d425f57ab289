-- ===== src/Examples/Endings.antt =====
-- The laws of a run of several steps, and how it ends and what it does on the way, from its steps.
use libbaalue.Prelude.{
  ◌||◌, ℕ, ◌≡◌, refl, Bool, true, false, List, [], ◌∷◌, ◌++◌, append_assoc, sym, All, arith,
  Bool-cases, inl, inr, if◌then◌else◌,
}
use libbaalue.Examples.Program.{
  has, Event, sigmask, create, signal_handler, Env, Ready, handle_signals, start_thread, Run, exits,
  waits, faults, goes_on, behind, ◌>>=◌, is_registered, with_cleanup, when,
}

pub behind-nil : {A : Type 0} (m : Run A) → behind [] m ≡ m
behind-nil (exits s h) = refl
behind-nil (waits h) = refl
behind-nil (faults h) = refl
behind-nil (goes_on a h) = refl

pub behind-behind :
    {A : Type 0} (g h : List Event) (m : Run A) → behind g (behind h m) ≡ behind (g ++ h) m
behind-behind g h (exits s f) = rw append_assoc
behind-behind g h (waits f) = rw append_assoc
behind-behind g h (faults f) = rw append_assoc
behind-behind g h (goes_on a f) = rw append_assoc

pub behind->>= :
    {A B : Type 0} (g : List Event) (m : Run A) (k : A → Run B)
    → (behind g m >>= k) ≡ behind g (m >>= k)
behind->>= g (exits s f) k = refl
behind->>= g (waits f) k = refl
behind->>= g (faults f) k = refl
behind->>= g (goes_on a f) k = sym (behind-behind g f (k a))

pub ruleset run_laws = (behind-nil, behind-behind, behind->>=, append_assoc)

pub handle_signals_lem :
    (env : Env) → Ready env → handle_signals env ≡ goes_on tt (sigmask ∷ create signal_handler ∷ [])
unfolding handle_signals start_thread
handle_signals_lem env ready = rw (ready.sigmask_works, ready.signals_created)

pub All-append : (P : Event → Type 0) (g h : List Event) → All P g → All P h → All P (g ++ h)
All-append P [] h p q = q
All-append P (e ∷ g) h p q = (p.0, All-append P g h p.1 q)

-- Whether a longer history shows a kind of event.
pub has-append : (p : Event → Bool) (g h : List Event) → has p g ≡ false → has p (g ++ h) ≡ has p h
has-append p [] h q = refl
has-append p (e ∷ g) h q = elim (Bool-cases (p e)) [
  | inl y ↦ cc (rw y at q)
  | inr n ↦ rw n (has-append p g h (rw n at q))
]

pub has-front : (p : Event → Bool) (g h : List Event) → has p g ≡ true → has p (g ++ h) ≡ true
has-front p [] h q = cc
has-front p (e ∷ g) h q = elim (Bool-cases (p e)) [
  | inl y ↦ rw y
  | inr n ↦ rw n (has-front p g h (rw n at q))
]

module _ (P : Event → Type 0) (S : ℕ → Type 0) where
  -- The run exits, with a status in `S`, and all its events are in `P`.
  abbrev pub Exits : {A : Type 0} → Run A → Type 0
  Exits (exits s h) = S s × All P h
  Exits (waits h) = ⊥
  Exits (faults h) = ⊥
  Exits (goes_on a h) = ⊥

  -- The same of a run that may also go on.
  abbrev pub Keeps : {A : Type 0} → Run A → Type 0
  Keeps (exits s h) = S s × All P h
  Keeps (waits h) = ⊥
  Keeps (faults h) = ⊥
  Keeps (goes_on a h) = All P h

  pub Exits-behind :
      {A : Type 0} (h : List Event) (m : Run A) → All P h → Exits m → Exits (behind h m)
  Exits-behind h (exits s g) p q = (q.0, All-append P h g p q.1)
  Exits-behind h (waits g) p q = absurd q
  Exits-behind h (faults g) p q = absurd q
  Exits-behind h (goes_on a g) p q = absurd q

  pub Keeps-behind :
      {A : Type 0} (h : List Event) (m : Run A) → All P h → Keeps m → Keeps (behind h m)
  Keeps-behind h (exits s g) p q = (q.0, All-append P h g p q.1)
  Keeps-behind h (waits g) p q = absurd q
  Keeps-behind h (faults g) p q = absurd q
  Keeps-behind h (goes_on a g) p q = All-append P h g p q

  pub Exits->>= :
      {A B : Type 0} (m : Run A) (k : A → Run B)
      → Keeps m
      → ((a : A) → Exits (k a))
      → Exits (m >>= k)
  Exits->>= (exits s h) k p q = p
  Exits->>= (waits h) k p q = absurd p
  Exits->>= (faults h) k p q = absurd p
  Exits->>= (goes_on a h) k p q = Exits-behind h (k a) p (q a)

  pub Keeps->>= :
      {A B : Type 0} (m : Run A) (k : A → Run B)
      → Keeps m
      → ((a : A) → Keeps (k a))
      → Keeps (m >>= k)
  Keeps->>= (exits s h) k p q = p
  Keeps->>= (waits h) k p q = absurd p
  Keeps->>= (faults h) k p q = absurd p
  Keeps->>= (goes_on a h) k p q = Keeps-behind h (k a) p (q a)

  -- A run that exits does not come to what stands behind it.
  pub Exits-first : {A B : Type 0} (m : Run A) (k : A → Run B) → Exits m → Exits (m >>= k)
  Exits-first (exits s h) k p = p
  Exits-first (waits h) k p = absurd p
  Exits-first (faults h) k p = absurd p
  Exits-first (goes_on a h) k p = absurd p

  pub Keeps-of-Exits : {A : Type 0} (m : Run A) → Exits m → Keeps m
  Keeps-of-Exits (exits s h) p = p
  Keeps-of-Exits (waits h) p = absurd p
  Keeps-of-Exits (faults h) p = absurd p
  Keeps-of-Exits (goes_on a h) p = absurd p

  pub Keeps-when : (b : Bool) (m : Run (Unit {0})) → Keeps m → Keeps (when b m)
  Keeps-when true m p = p
  Keeps-when false m p = tt

  pub with_cleanup-Exits :
      (final : List Event → List Event) (m : Run (Unit {0}))
      → ((h : List Event) → All P (final h))
      → Exits m
      → (s : ℕ) × (h : List Event) × (with_cleanup final m ≡ exits s h) × S s × All P h
  with_cleanup-Exits final (exits s h) done p = elim (Bool-cases (is_registered h)) [
    | inl e ↦ rw e (s, h ++ final h, refl, p.0, All-append P h (final h) p.1 (done h))
    | inr e ↦ rw e (s, h, refl, p.0, p.1)
  ]
  with_cleanup-Exits final (waits h) done p = absurd p
  with_cleanup-Exits final (faults h) done p = absurd p
  with_cleanup-Exits final (goes_on a h) done p = absurd p
