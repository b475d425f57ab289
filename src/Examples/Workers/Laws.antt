-- ===== src/Examples/Workers/Laws.antt =====
-- What a program, its signal thread and its worker have done, from what each does by itself.
use libbaalue.Prelude.{
  ◌≡◌, refl, sym, ap, ◌∙◌, Bool, true, some, List, [], ◌∷◌, ◌++◌, ◌>>=◌, append_assoc, append-nil,
  ◌⊎◌, inl, inr, Option-cases,
}
use libbaalue.Examples.Program.{Event, Run, has}
use libbaalue.Examples.Endings.{has-front}
use libbaalue.Examples.Signals.{Signal}
use libbaalue.Examples.Threads.{
  State, running, Step, main_acts, main_exits, signal_acts, signal_exits, main_cleans,
  signal_acts_on, main_ends, signal_cleans, main_acts_on, signal_ends, Reach, here, next, started,
}
use libbaalue.Examples.Workers.{
  Worker, Machine, history, Moves, program_moves, worker_moves, Reaches, as_begun, moved, begun,
}

-- `b` goes on from `a`.
abbrev pub Extends : List Event → List Event → Type 0
Extends a b = (more : List Event) × (b ≡ a ++ more)

pub Extends-trans : (a b c : List Event) → Extends a b → Extends b c → Extends a c
Extends-trans a b c (k, e) (l, f) = (k ++ l, f ∙ ap (λ x. x ++ l) e ∙ append_assoc a k l)

-- What has been shown stays shown.
pub Extends-has :
    (p : Event → Bool) (a b : List Event) → Extends a b → has p a ≡ true → has p b ≡ true
Extends-has p a b (k, e) q = ap (has p) e ∙ has-front p a k q

pub Step-Extends :
    {final : List Event → List Event} {works : Bool} {s t : State}
    → Step final works s t
    → Extends (history s) (history t)
Step-Extends (main_acts heard h e m m' q) = (e ∷ [], refl)
Step-Extends (main_exits heard h status m q) = ([], sym (append-nil h))
Step-Extends (signal_acts heard h g s m w on q) = (g, refl)
Step-Extends (signal_exits heard h g s status m w on q) = (g, refl)
Step-Extends (main_cleans heard status e rest h) = (e ∷ [], refl)
Step-Extends (signal_acts_on heard status rest h g s w on q) = (g, refl)
Step-Extends (main_ends heard status h) = ([], sym (append-nil h))
Step-Extends (signal_cleans status e rest h m) = (e ∷ [], refl)
Step-Extends (main_acts_on status rest h e m m' q) = (e ∷ [], refl)
Step-Extends (signal_ends status h m) = ([], sym (append-nil h))

module _ {R E : Type 0} (worker : Worker R E) where
  -- The loop after one more reception.
  loop_snoc :
      (rs : List R) (r : R) (h : List E)
      → worker.loop (rs ++ r ∷ []) h ≡ (worker.loop rs h >>= worker.round r)
  loop_snoc [] r h = elim (Option-cases (worker.round r h)) [
    | inl n ↦ worker.loop_cons r [] h ∙ rw (n, worker.loop_nil h, n)
    | inr (w, y) ↦ worker.loop_cons r [] h ∙ rw (y, worker.loop_nil h, y, worker.loop_nil w)
  ]
  loop_snoc (x ∷ rs) r h = elim (Option-cases (worker.round x h)) [
    | inl n ↦ rw (worker.loop_cons x (rs ++ r ∷ []) h, worker.loop_cons x rs h, n)
    | inr (w, y) ↦
        rw (worker.loop_cons x (rs ++ r ∷ []) h, worker.loop_cons x rs h, y) (loop_snoc rs r w)
  ]

module _ {R E : Type 0} (worker : Worker R E) (final : List Event → List Event) (works : Bool)
    (is_start : Event → Bool) (created : Bool) (m : Run (Unit {0})) where
  -- What holds of a machine that the program `m` comes to: its program is one that comes about without
  -- the worker; the worker has done what its loop does on what it has received; and if it has
  -- received anything, the program had come to start it before.
  abbrev pub Runs : Machine R E → Type 0
  Runs k =
      Reach final works (started m) k.program
      × (worker.loop k.taken [] ≡ some k.done)
      × ((k.taken ≡ [])
          ⊎ ((heard : List Signal) × (h : List Event) × (left : Run (Unit {0})) × Reach final works
                (started m) (running heard h left)
              × (created ≡ true)
              × (has is_start h ≡ true)
              × Extends h (history k.program)))

  Moves-Runs : {j k : Machine R E} → Moves worker final works is_start created j k → Runs j → Runs k
  Moves-Runs (program_moves s t rs w step) (r, run, inl none_taken) =
      (next r step, run, inl none_taken)
  Moves-Runs (program_moves s t rs w step) (r, run, inr (heard, h, left, q, c, on, ext)) = (
    next r step,
    run,
    inr (heard, h, left, q, c, on, Extends-trans h (history s) (history t) ext (Step-Extends step)),
  )
  Moves-Runs (worker_moves heard h left x rs w w' c on e) (r, run, before) = (
    r,
    loop_snoc worker rs x [] ∙ rw run e,
    inr (heard, h, left, r, c, on, ([], sym (append-nil h))),
  )

  -- In every interleaving of main, signal_handler and the worker, the first two come about as they do
  -- without the worker; the worker has done what its loop does by itself on what it has received;
  -- and it has received nothing before main has started it.
  pub begun-Runs :
      {k : Machine R E} → Reaches worker final works is_start created (begun m) k → Runs k
  begun-Runs as_begun = (here, worker.loop_nil [], inl refl)
  begun-Runs (moved r step) = Moves-Runs step (begun-Runs r)
