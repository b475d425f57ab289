-- ===== src/Examples/Workers/After.antt =====
-- What a program has done before its worker receives anything, from the order of the calls of main.
use libbaalue.Prelude.{◌≡◌, sym, subst, Bool, true, some, List, [], ◌⊎◌, inl, inr}
use libbaalue.Examples.Program.{Event, Run, events, has}
use libbaalue.Examples.Threads.Shuffle.{IsQuiet}
use libbaalue.Examples.Threads.Order.{precedes}
use libbaalue.Examples.Threads.Before.{
  Shows, Shows-append, Leads, running-events, running-precedes, running-Shows,
}
use libbaalue.Examples.Workers.{Worker, Machine, history, Reaches, begun}
use libbaalue.Examples.Workers.Laws.{Extends-has, begun-Runs}

module _ {R E : Type 0} (worker : Worker R E) (final : List Event → List Event) (works : Bool)
    (is_start : Event → Bool) (created : Bool) (m : Run (Unit {0})) where
  -- The worker's thread could be created, main comes to create it, and what main does before that has
  -- been done.
  pub record Follows (h : List Event) : Type 0 where
    pub has_thread : created ≡ true
    pub by_main : has is_start (events m) ≡ true
    pub first :
        (p : Event → Bool) → IsQuiet p → precedes p is_start (events m) ≡ true → has p h ≡ true
    pub shows : (e : Event) → Leads is_start e (events m) → Shows e h

  -- In every interleaving, the worker has done what its loop does on what it has received, and has
  -- received nothing or follows what main does before its creation.
  pub begun-Follows :
      {k : Machine R E}
      → IsQuiet is_start
      → Reaches worker final works is_start created (begun m) k
      → (worker.loop k.taken [] ≡ some k.done) × ((k.taken ≡ []) ⊎ Follows (history k.program))
  begun-Follows {k} quiet r =
      let (_, run, before) = begun-Runs worker final works is_start created m r in
      (
        run,
        elim before [
          | inl none_taken ↦ inl none_taken
          | inr (heard, h, left, q, c, on, ext) ↦ inr (record {
            has_thread = c;
            by_main = running-events final works m q is_start quiet on;
            first = λ p p_quiet order.
                Extends-has p h (history k.program) ext
                  (running-precedes final works m q is_start quiet on p p_quiet order);
            shows = λ e leads.
                subst (Shows e) (sym ext.1)
                  (Shows-append ext.0 (running-Shows final works m q is_start quiet on e leads));
          })
        ],
      )
