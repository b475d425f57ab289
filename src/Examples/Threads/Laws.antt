-- ===== src/Examples/Threads/Laws.antt =====
-- What a program with its signal thread has done and how it has ended, from what main and the loop of
-- signal_handler do alone.
use libbaalue.Prelude.{
  ℕ, ◌≡◌, refl, sym, ap, ◌∙◌, subst, Bool, true, List, [], ◌∷◌, ◌++◌, append_assoc, append-nil, ◌⊎◌,
  inl, inr,
}
use libbaalue.Examples.Program.{Event, Run, exits, waits, faults, goes_on, behind, has, events}
use libbaalue.Examples.Endings.{behind-nil, behind-behind}
use libbaalue.Examples.Signals.{Signal, signal_round, signal_loop}
use libbaalue.Examples.Threads.{
  is_handler, closing, State, running, main_exiting, signal_exiting, ended, Step, main_acts,
  main_exits, signal_acts, signal_exits, main_cleans, signal_acts_on, main_ends, signal_cleans,
  main_acts_on, signal_ends, Reach, here, next, started,
}
use libbaalue.Examples.Threads.Shuffle.{
  nothing_left, Shuffle, Shuffle-append_main, Shuffle-append_signals, signal_round-cases,
  main_shows, is_handler-IsQuiet,
}

-- The run `m`, and `k` where it waits.
abbrev pub after : Run (Unit {0}) → Run (Unit {0}) → Run (Unit {0})
after (waits h) k = behind h k
after (exits s h) k = exits s h
after (faults h) k = faults h
after (goes_on a h) k = goes_on a h

after-behind : (g : List Event) (m k : Run (Unit {0})) → after (behind g m) k ≡ behind g (after m k)
after-behind g (waits h) k = sym (behind-behind g h k)
after-behind g (exits s h) k = refl
after-behind g (faults h) k = refl
after-behind g (goes_on a h) k = refl

-- What the loop does with more answers.
pub signal_loop-append :
    (heard more : List Signal)
    → signal_loop (heard ++ more) ≡ after (signal_loop heard) (signal_loop more)
unfolding signal_loop
signal_loop-append [] more = sym (behind-nil (signal_loop more))
signal_loop-append (s ∷ heard) more = elim (signal_round-cases s) [
  | inl (g, e) ↦
      rw (e, after-behind g (signal_loop heard) (signal_loop more), signal_loop-append heard more)
  | inr (status, g, e) ↦ rw e
]

-- The next answer, on which the loop goes on or exits.
module _ (heard : List Signal) (x : Signal) {s k : List Event}
    (b : signal_loop heard ≡ waits s) where
  hears : signal_round x ≡ goes_on tt k → signal_loop (heard ++ x ∷ []) ≡ waits (s ++ k)
  unfolding signal_loop
  hears r = signal_loop-append heard (x ∷ []) ∙ rw (b, r, append-nil)

  pub hears_last :
      {status : ℕ}
      → signal_round x ≡ exits status k
      → signal_loop (heard ++ x ∷ []) ≡ exits status (s ++ k)
  unfolding signal_loop
  hears_last r = signal_loop-append heard (x ∷ []) ∙ rw (b, r)

-- `h` is `h0` with a part of `cleanup` behind it, of which `rest` is left, and with what the other
-- thread has done meanwhile.
abbrev pub Cleaning : (List Event → List Event) → (rest h h0 k : List Event) → Type 0
Cleaning final rest h h0 k =
    (t done : List Event) × (h ≡ h0 ++ t) × Shuffle done k t × (done ++ rest ≡ closing final h0)

module _ (final : List Event → List Event) (h0 k : List Event) {rest h : List Event} where
  cleans_on :
      (e : Event) → Cleaning final (e ∷ rest) h h0 k → Cleaning final rest (h ++ e ∷ []) h0 k
  cleans_on e (t, done, a, sh, all) = (
    t ++ e ∷ [],
    done ++ e ∷ [],
    ap (λ l. l ++ e ∷ []) a ∙ append_assoc h0 t (e ∷ []),
    Shuffle-append_main (e ∷ []) sh,
    append_assoc done (e ∷ []) rest ∙ all,
  )

  other_acts :
      (g : List Event) → Cleaning final rest h h0 k → Cleaning final rest (h ++ g) h0 (k ++ g)
  other_acts g (t, done, a, sh, all) =
      (t ++ g, done, ap (λ l. l ++ g) a ∙ append_assoc h0 t g, Shuffle-append_signals g sh, all)

module _ (final : List Event → List Event) (works : Bool) (m : Run (Unit {0})) where
  -- `h0` is what has been done when main has called exit, and `k` what the loop has done since.
  abbrev pub MainExits : List Signal → ℕ → List Event → List Event → Type 0
  MainExits heard status h0 k =
      (g s : List Event) × (m ≡ behind g (exits status []))
      × Shuffle g s h0
      × ((before : List Signal) × (signal_loop before ≡ waits s))
      × (signal_loop heard ≡ waits (s ++ k))

  -- `h0` is what has been done when the loop has called exit, and `k` what main has done since, with
  -- `left` before it still.
  abbrev pub SignalExits : Run (Unit {0}) → ℕ → List Event → List Event → Type 0
  SignalExits left status h0 k =
      (heard : List Signal) × (g s : List Event) × (m ≡ behind (g ++ k) left)
      × Shuffle g s h0
      × (works ≡ true)
      × (has is_handler g ≡ true)
      × (signal_loop heard ≡ exits status s)

  -- What holds of a state that the program `m` comes to.
  abbrev pub Comes : State → Type 0
  Comes (running heard h left) =
      (g : List Event) × (s : List Event) × (m ≡ behind g left)
      × (signal_loop heard ≡ waits s)
      × Shuffle g s h
  Comes (main_exiting heard status rest h) =
      (h0 k : List Event) × Cleaning final rest h h0 k × MainExits heard status h0 k
  Comes (signal_exiting status rest h left) =
      (h0 k : List Event) × Cleaning final rest h h0 k × SignalExits left status h0 k
  Comes (ended status history) =
      (h0 t k : List Event) × (history ≡ h0 ++ t)
      × Shuffle (closing final h0) k t
      × (((heard : List Signal) × MainExits heard status h0 k)
          ⊎ ((left : Run (Unit {0})) × SignalExits left status h0 k))

  Step-Comes : {t u : State} → Step final works t u → Comes t → Comes u
  Step-Comes (main_acts heard h e left left' q) (g, s, a, b, sh) =
      (g ++ e ∷ [], s, rw (a, q, behind-behind), b, Shuffle-append_main (e ∷ []) sh)
  Step-Comes (main_exits heard h status left q) (g, s, a, b, sh) = (
    h,
    [],
    ([], [], sym (append-nil h), nothing_left, refl),
    (g, s, rw q at a, sh, (heard, b), b ∙ ap waits (sym (append-nil s))),
  )
  Step-Comes (signal_acts heard h k x left w on r) (g, s, a, b, sh) =
      (g, s ++ k, a, hears heard x b r, Shuffle-append_signals k sh)
  Step-Comes (signal_exits heard h k x status left w on r) (g, s, a, b, sh) =
      let seen = main_shows is_handler is_handler-IsQuiet heard (ap events b) sh in
      (
        h ++ k,
        [],
        ([], [], sym (append-nil (h ++ k)), nothing_left, refl),
        (
          heard ++ x ∷ [],
          g,
          s ++ k,
          a ∙ ap (λ l. behind l left) (sym (append-nil g)),
          Shuffle-append_signals k sh,
          w,
          sym seen ∙ on,
          hears_last heard x b r,
        ),
      )
  Step-Comes (main_cleans heard status e rest h) (h0, k, c, o) =
      (h0, k, cleans_on final h0 k e c, o)
  Step-Comes (signal_acts_on heard status rest h l x w on r) (h0, k, c, (g, s, a, sh, at, b)) = (
    h0,
    k ++ l,
    other_acts final h0 k l c,
    (g, s, a, sh, at, hears heard x b r ∙ ap waits (append_assoc s k l)),
  )
  Step-Comes (main_ends heard status h) (h0, k, (t, done, a, sh, all), o) =
      (h0, t, k, a, subst (λ d. Shuffle d k t) (sym (append-nil done) ∙ all) sh, inl (heard, o))
  Step-Comes (signal_cleans status e rest h left) (h0, k, c, o) =
      (h0, k, cleans_on final h0 k e c, o)
  Step-Comes (main_acts_on status rest h e left left' q)
        (h0, k, c, (heard, g, s, a, sh, w, on, l)) =
      (
        h0,
        k ++ e ∷ [],
        other_acts final h0 k (e ∷ []) c,
        (
          heard,
          g,
          s,
          rw (a, q, behind-behind) (ap (λ l. behind l left') (append_assoc g k (e ∷ []))),
          sh,
          w,
          on,
          l,
        ),
      )
  Step-Comes (signal_ends status h left) (h0, k, (t, done, a, sh, all), o) =
      (h0, t, k, a, subst (λ d. Shuffle d k t) (sym (append-nil done) ∙ all) sh, inr (left, o))

  Reach-Comes : {t u : State} → Reach final works t u → Comes t → Comes u
  Reach-Comes here c = c
  Reach-Comes (next r step) c = Step-Comes step (Reach-Comes r c)

  -- In every order of their steps, what a program with its signal thread has done is an interleaving
  -- of what main has done by itself and of what the loop of signal_handler does by itself on the
  -- answers of sigwait so far. When one of them has called exit, `cleanup` follows, if it was registered,
  -- interleaved with what the other one does meanwhile.
  pub started-Comes : {u : State} → Reach final works (started m) u → Comes u
  unfolding signal_loop
  started-Comes r = Reach-Comes r ([], [], sym (behind-nil m), refl, nothing_left)

  -- The signal thread may run `cleanup` alone.
  cleans_up :
      {u : State} (status : ℕ) (rest h : List Event) (left : Run (Unit {0}))
      → Reach final works u (signal_exiting status rest h left)
      → Reach final works u (ended status (h ++ rest))
  cleans_up {u} status [] h left r =
      subst (λ l. Reach final works u (ended status l)) (sym (append-nil h))
        (next r (signal_ends status h left))
  cleans_up {u} status (e ∷ rest) h left r =
      subst (λ l. Reach final works u (ended status l)) (append_assoc h (e ∷ []) rest)
        (cleans_up status rest (h ++ e ∷ []) left (next r (signal_cleans status e rest h left)))

  pub ends_by_signal :
      {u : State} (heard : List Signal) (h g : List Event) (s : Signal) (status : ℕ)
      (left : Run (Unit {0}))
      → works ≡ true
      → has is_handler h ≡ true
      → signal_round s ≡ exits status g
      → Reach final works u (running heard h left)
      → Reach final works u (ended status ((h ++ g) ++ closing final (h ++ g)))
  ends_by_signal heard h g s status left w on e r =
      cleans_up status (closing final (h ++ g)) (h ++ g) left
        (next r (signal_exits heard h g s status left w on e))

  -- main may come as far as it does by itself before a signal arrives.
  main_runs_from :
      (u : State) (heard : List Signal) (h g : List Event) (left : Run (Unit {0}))
      → Reach final works u (running heard h (behind g left))
      → Reach final works u (running heard (h ++ g) left)
  main_runs_from u heard h [] left r =
      subst (λ s. Reach final works u s)
        (ap (running heard h) (behind-nil left)
          ∙ ap (λ l. running heard l left) (sym (append-nil h)))
        r
  main_runs_from u heard h (e ∷ g) left r =
      subst (λ l. Reach final works u (running heard l left)) (append_assoc h (e ∷ []) g)
        (main_runs_from u heard (h ++ e ∷ []) g left (
          next r (
            main_acts heard h e (behind (e ∷ g) left) (behind g left)
              (sym (behind-behind (e ∷ []) g left)))))

  pub main_runs :
      (g : List Event) (left : Run (Unit {0}))
      → m ≡ behind g left
      → Reach final works (started m) (running [] g left)
  main_runs g left e =
      main_runs_from (started m) [] [] g left
        (subst (λ k. Reach final works (started m) (started k)) e here)
