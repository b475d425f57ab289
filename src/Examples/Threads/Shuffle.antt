-- ===== src/Examples/Threads/Shuffle.antt =====
-- The interleavings of what main and signal_handler of a program of examples/ do, and the events that
-- only main shows in them.
use libbaalue.Prelude.{
  ℕ, ◌≡◌, refl, sym, ap, ◌∙◌, Bool, false, ◌||◌, List, [], ◌∷◌, ◌++◌, ◌⊎◌, inl, inr, Bool-cases,
  ◌==◌,
}
use libbaalue.Examples.Program.{
  is_registration, Event, message, caught, ignored, unhandled, Run, exits, waits, faults, goes_on,
  behind, has, events, success, failure,
}
use libbaalue.Examples.Endings.{has-append}
use libbaalue.Examples.Signals.{Signal, failed, signal, signal_round, signal_loop, sigterm, sighup}
use libbaalue.Examples.Threads.{is_handler}

-- `h` is an interleaving of `g` and `s`.
pub data Shuffle : List Event → List Event → List Event → Type 0 where
  nothing_left : Shuffle [] [] []
  of_main : {g s h : List Event} (e : Event) → Shuffle g s h → Shuffle (e ∷ g) s (e ∷ h)
  of_signals : {g s h : List Event} (e : Event) → Shuffle g s h → Shuffle g (e ∷ s) (e ∷ h)

only_main : (k : List Event) → Shuffle k [] k
only_main [] = nothing_left
only_main (e ∷ k) = of_main e (only_main k)

only_signals : (k : List Event) → Shuffle [] k k
only_signals [] = nothing_left
only_signals (e ∷ k) = of_signals e (only_signals k)

pub Shuffle-append_main :
    {g s h : List Event} (k : List Event) → Shuffle g s h → Shuffle (g ++ k) s (h ++ k)
Shuffle-append_main k nothing_left = only_main k
Shuffle-append_main k (of_main e sh) = of_main e (Shuffle-append_main k sh)
Shuffle-append_main k (of_signals e sh) = of_signals e (Shuffle-append_main k sh)

pub Shuffle-append_signals :
    {g s h : List Event} (k : List Event) → Shuffle g s h → Shuffle g (s ++ k) (h ++ k)
Shuffle-append_signals k nothing_left = only_signals k
Shuffle-append_signals k (of_main e sh) = of_main e (Shuffle-append_signals k sh)
Shuffle-append_signals k (of_signals e sh) = of_signals e (Shuffle-append_signals k sh)

-- What is not seen in the one part is seen exactly if it is in the other.
Shuffle-has :
    (p : Event → Bool) {g s h : List Event} → Shuffle g s h → has p s ≡ false → has p h ≡ has p g
Shuffle-has p nothing_left q = refl
Shuffle-has p (of_main e sh) q = ap (λ b. p e || b) (Shuffle-has p sh q)
Shuffle-has p (of_signals e sh) q = elim (Bool-cases (p e)) [
  | inl y ↦ cc (rw y at q)
  | inr n ↦ rw n (Shuffle-has p sh (rw n at q))
]

-- A kind of event that is none of the messages on a signal.
pub record IsQuiet (p : Event → Bool) : Type 0 where
  pub no_message : p message ≡ false
  pub no_caught : (n : ℕ) → p (caught n) ≡ false
  pub no_ignored : (n : ℕ) → p (ignored n) ≡ false
  pub no_unhandled : (n : ℕ) → p (unhandled n) ≡ false

-- A turn goes on or exits.
pub signal_round-cases :
    (s : Signal)
    → ((g : List Event) × (signal_round s ≡ goes_on tt g))
      ⊎ ((status : ℕ) × (g : List Event) × (signal_round s ≡ exits status g))
unfolding signal_round
signal_round-cases failed = inr (failure, message ∷ [], refl)
signal_round-cases (signal n) = elim (Bool-cases (n == sigterm)) [
  | inl t ↦ inr (success, caught n ∷ [], rw t)
  | inr o ↦ elim (Bool-cases (n == sighup)) [
    | inl h ↦ inl (ignored n ∷ [], rw (o, h))
    | inr u ↦ inl (unhandled n ∷ [], rw (o, u))
  ]
]

module _ (p : Event → Bool) (quiet : IsQuiet p) where
  signal_round-has : (s : Signal) → has p (events (signal_round s)) ≡ false
  unfolding signal_round
  signal_round-has failed = rw quiet.no_message
  signal_round-has (signal n) = elim (Bool-cases (n == sigterm)) [
    | inl t ↦ rw (t, quiet.no_caught n)
    | inr o ↦ elim (Bool-cases (n == sighup)) [
      | inl h ↦ rw (o, h, quiet.no_ignored n)
      | inr u ↦ rw (o, u, quiet.no_unhandled n)
    ]
  ]

  has-behind :
      (g : List Event) (m : Run (Unit {0}))
      → has p g ≡ false
      → has p (events m) ≡ false
      → has p (events (behind g m)) ≡ false
  has-behind g (exits s h) a b = has-append p g h a ∙ b
  has-behind g (waits h) a b = has-append p g h a ∙ b
  has-behind g (faults h) a b = has-append p g h a ∙ b
  has-behind g (goes_on u h) a b = has-append p g h a ∙ b

  -- The loop shows no event of such a kind.
  signal_loop-has : (heard : List Signal) → has p (events (signal_loop heard)) ≡ false
  unfolding signal_loop
  signal_loop-has [] = refl
  signal_loop-has (s ∷ heard) =
      let silent = signal_round-has s in
      elim (signal_round-cases s) [
        | inl (g, e) ↦
            rw e (has-behind g (signal_loop heard) (rw e at silent) (signal_loop-has heard))
        | inr (status, g, e) ↦ rw e (rw e at silent)
      ]

-- Such a kind is seen exactly if main has shown it.
pub main_shows :
    (p : Event → Bool)
    → IsQuiet p
    → {g s h : List Event} (heard : List Signal) → events (signal_loop heard) ≡ s
    → Shuffle g s h
    → has p h ≡ has p g
main_shows p quiet heard said sh =
    Shuffle-has p sh (sym (ap (has p) said) ∙ signal_loop-has p quiet heard)

pub is_handler-IsQuiet : IsQuiet is_handler
is_handler-IsQuiet = record {
  no_message = refl;
  no_caught = λ n. refl;
  no_ignored = λ n. refl;
  no_unhandled = λ n. refl;
}

pub is_registration-IsQuiet : IsQuiet is_registration
is_registration-IsQuiet = record {
  no_message = refl;
  no_caught = λ n. refl;
  no_ignored = λ n. refl;
  no_unhandled = λ n. refl;
}
