-- ===== src/Examples/Threads/Order.antt =====
-- What main of a program of examples/ has done before it starts its signal thread.
use libbaalue.Prelude.{
  ◌≡◌, refl, sym, ap, ◌∙◌, Bool, true, false, List, [], ◌∷◌, ◌++◌, ◌⊎◌, inl, inr, Bool-cases,
  append-nil, if◌then◌else◌,
}
use libbaalue.Examples.Program.{Event, Run, exits, waits, faults, goes_on, behind, events, has}
use libbaalue.Examples.Threads.{is_handler}

-- No event of the kind `late` before one of the kind `early`.
abbrev pub precedes : (Event → Bool) → (Event → Bool) → List Event → Bool
precedes early late [] = true
precedes early late (e ∷ h) =
    let rest = precedes early late h in if early e then true else if late e then false else rest

pub precedes-has :
    (early late : Event → Bool) (g rest : List Event)
    → precedes early late (g ++ rest) ≡ true
    → has late g ≡ true
    → has early g ≡ true
precedes-has early late [] rest p q = cc
precedes-has early late (e ∷ g) rest p q = elim (Bool-cases (early e)) [
  | inl y ↦ rw y
  | inr n ↦ elim (Bool-cases (late e)) [
    | inl y ↦ cc (rw (n, y) at p)
    | inr m ↦ rw n (precedes-has early late g rest (rw (n, m) at p) (rw m at q))
  ]
]

pub events-behind : {A : Type 0} (g : List Event) (m : Run A) → events (behind g m) ≡ g ++ events m
events-behind g (exits s h) = refl
events-behind g (waits h) = refl
events-behind g (faults h) = refl
events-behind g (goes_on a h) = refl

-- A kind of event that main shows ahead of the thread has been shown by a main that has
-- started the thread, or that has come to its end.
pub shown :
    (early : Event → Bool) (b rest g : List Event) (left : Run (Unit {0}))
    → precedes early is_handler (b ++ rest) ≡ true
    → has early (b ++ rest) ≡ true
    → b ++ rest ≡ g ++ events left
    → (events left ≡ []) ⊎ (has is_handler g ≡ true)
    → has early g ≡ true
shown early b rest g left ordered present e (inl done) =
    sym (ap (has early) (e ∙ ap (λ l. g ++ l) done ∙ append-nil g)) ∙ present
shown early b rest g left ordered present e (inr on) =
    precedes-has early is_handler g (events left) (sym (ap (precedes early is_handler) e) ∙ ordered)
      on
