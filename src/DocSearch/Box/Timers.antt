-- ===== src/DocSearch/Box/Timers.antt =====
-- The timers of the search field (Doc/html/search/search.js): typing puts off the one pending
-- search.
use upciedev.Prelude.{
  ℕ, ◌+◌, ◌<◌, Bool, true, false, ◌||◌, not, List, [], ◌∷◌, ◌==◌, if◌then◌else◌, if-both, ◌≡◌, ◌≢◌,
  refl, arith, Bool-cases, inl, inr,
}
use upciedev.DocSearch.Text.{text_eq}
use upciedev.DocSearch.Box.{
  run_search, close_selection, Timer, SearchBox, clear_timeout, activate, on_search_select_show,
  on_search_select_hide, schedule_search, on_search_field_change, on_search_field_focus, strip_all,
  is_empty, results_focus, elsewhere,
}

-- The ids of the pending searches.
abbrev pub search_ids : List Timer → List ℕ
search_ids [] = []
search_ids (t ∷ ts) = elim t.action [
  | run_search ↦ t.id ∷ search_ids ts
  | close_selection ↦ search_ids ts
]

-- All pending timers have been given out.
abbrev pub AllBelow : ℕ → List Timer → Type 0
AllBelow n [] = Unit
AllBelow n (t ∷ ts) = (t.id < n) × AllBelow n ts

-- The pending searches are the one that the box remembers, and none if it remembers none; and the
-- two timers that it remembers are not the same.
pub record Timed (timers : List Timer) (next_timer key_timeout hide_timeout : ℕ) : Type 0 where
  pub one : search_ids timers ≡ (if key_timeout == 0 then [] else key_timeout ∷ [])
  pub given_out : AllBelow next_timer timers
  pub key_given_out : key_timeout < next_timer
  pub hide_given_out : hide_timeout < next_timer
  pub apart : hide_timeout ≢ 0 → hide_timeout ≢ key_timeout

abbrev pub IsTimed : SearchBox → Type 0
IsTimed s = Timed s.timers s.next_timer s.key_timeout s.hide_timeout

without : ℕ → List ℕ → List ℕ
without id [] = []
without id (x ∷ xs) = let rest = without id xs in if x == id then rest else x ∷ rest

search_ids-clear_timeout :
    (id : ℕ) (ts : List Timer) → search_ids (clear_timeout id ts) ≡ without id (search_ids ts)
unfolding clear_timeout without
search_ids-clear_timeout id [] = refl
search_ids-clear_timeout id (t ∷ ts) = ground (arith, search_ids-clear_timeout id ts)

AllBelow-clear_timeout :
    (id n : ℕ) (ts : List Timer) → AllBelow n ts → AllBelow n (clear_timeout id ts)
unfolding clear_timeout
AllBelow-clear_timeout id n [] h = h
AllBelow-clear_timeout id n (t ∷ ts) h =
    let rest = AllBelow-clear_timeout id n ts h.1 in
    if-both (AllBelow n) (t.id == id) rest (h.0, rest)

AllBelow-suc : (n : ℕ) (ts : List Timer) → AllBelow n ts → AllBelow (n + 1) ts
AllBelow-suc n [] h = h
AllBelow-suc n (t ∷ ts) h = (omega (arith, h.0), AllBelow-suc n ts h.1)

-- A box whose search timer has been forgotten and cleared.
forget_key : SearchBox → SearchBox
forget_key s =
    if s.key_timeout == 0
    then s
    else record s { timers = clear_timeout s.key_timeout s.timers; key_timeout = 0 }

forget_key-IsTimed :
    (s : SearchBox)
    → IsTimed s
    → IsTimed (forget_key s)
      × (search_ids (forget_key s).timers ≡ [])
      × ((forget_key s).key_timeout ≡ 0)
unfolding forget_key without
forget_key-IsTimed s h = elim (Bool-cases (s.key_timeout == 0)) [
  | inl e ↦ rw e (h, rw e at h.one, ground arith)
  | inr e ↦
      let same : (s.key_timeout == s.key_timeout) ≡ true = ground arith in
      let cleared : search_ids (clear_timeout s.key_timeout s.timers) ≡ [] =
        rw (search_ids-clear_timeout s.key_timeout s.timers, rw e at h.one) (rw same) in
      rw e (
        record {
          one = cleared;
          given_out = AllBelow-clear_timeout s.key_timeout s.next_timer s.timers h.given_out;
          key_given_out = omega arith;
          hide_given_out = h.hide_given_out;
          apart = λ n. n;
        },
        cleared,
        refl,
      )
]

schedule_search-IsTimed :
    (s : SearchBox)
    → IsTimed s
    → search_ids s.timers ≡ []
    → s.key_timeout ≡ 0
    → IsTimed (schedule_search s)
unfolding schedule_search
schedule_search-IsTimed s h none_pending none_known =
    if-both IsTimed (text_eq (strip_all s.field) s.last_search_value) h (
      if-both IsTimed (not (is_empty (strip_all s.field)))
        (record {
          one = let given : (s.next_timer == 0) ≡ false = ground arith in rw (given, none_pending);
          given_out = (omega arith, AllBelow-suc s.next_timer s.timers h.given_out);
          key_given_out = omega arith;
          hide_given_out = omega arith;
          apart = λ n e. absurd (omega arith);
        })
        h)

without-hide :
    (key hide : ℕ)
    → hide ≢ 0
    → (hide ≢ 0 → hide ≢ key)
    → without hide (if key == 0 then [] else key ∷ []) ≡ (if key == 0 then [] else key ∷ [])
unfolding without
without-hide key hide there apart = elim (Bool-cases (key == 0)) [
  | inl e ↦ rw e
  | inr e ↦
      let differ : hide ≢ key = apart there in
      let other : (key == hide) ≡ false = ground arith in rw e (rw other)
]

on_search_select_show-IsTimed : (s : SearchBox) → IsTimed s → IsTimed (on_search_select_show s)
unfolding on_search_select_show
on_search_select_show-IsTimed s h = elim (Bool-cases (s.hide_timeout == 0)) [
  | inl e ↦ rw (e, on_search_select_show) h
  | inr e ↦
      rw (e, on_search_select_show)
        (record {
          one =
              rw (search_ids-clear_timeout s.hide_timeout s.timers, h.one)
                (without-hide s.key_timeout s.hide_timeout (ground arith) h.apart);
          given_out = AllBelow-clear_timeout s.hide_timeout s.next_timer s.timers h.given_out;
          key_given_out = h.key_given_out;
          hide_given_out = omega arith;
          apart = λ n. absurd (n refl);
        })
]

on_search_select_hide-IsTimed : (s : SearchBox) → IsTimed s → IsTimed (on_search_select_hide s)
unfolding on_search_select_hide
on_search_select_hide-IsTimed s h = record {
  one = h.one;
  given_out = (omega arith, AllBelow-suc s.next_timer s.timers h.given_out);
  key_given_out = omega arith;
  hide_given_out = omega arith;
  apart = λ n e. omega arith;
}

activate-IsTimed : (b : Bool) (s : SearchBox) → IsTimed s → IsTimed (activate b s)
unfolding activate
activate-IsTimed b s h =
    if-both IsTimed (b || s.results_shown) (if-both IsTimed (text_eq s.field s.search_label) h h) h

-- In a box whose timers are in order there is at most one pending search, the one that the box
-- remembers in `keyTimeout`, and this stays so however the user types, moves the focus in or out of
-- the field, and opens or leaves the selection.
pub one_pending_search :
    (s : SearchBox)
    → IsTimed s
    → ((key : ℕ) (shift : Bool) → IsTimed (on_search_field_change key shift s))
      × ((b : Bool) → IsTimed (on_search_field_focus b s))
      × IsTimed (on_search_select_show s)
      × IsTimed (on_search_select_hide s)
unfolding on_search_field_change on_search_field_focus forget_key
one_pending_search s h = (
  λ key shift.
      let (timed, none_pending, none_known) = forget_key-IsTimed s h in
      let s0 = forget_key s in
      let closed : SearchBox = record s0 {
        focus = elsewhere;
        results_shown = false;
        close_shown = false;
        last_search_value = [];
      } in
      let shown = on_search_select_show-IsTimed s0 timed in
      if-both IsTimed (key == 40 || key == 13)
        (if-both IsTimed shift
          (if-both IsTimed ((on_search_select_show s0).select_items == 0) shown shown)
          (schedule_search-IsTimed
            (if s0.frame_has_result then record s0 { focus = results_focus } else s0)
            (if-both IsTimed s0.frame_has_result timed timed)
            (if-both (λ (t : SearchBox). search_ids t.timers ≡ []) s0.frame_has_result none_pending
              none_pending)
            (if-both (λ (t : SearchBox). t.key_timeout ≡ 0) s0.frame_has_result none_known
              none_known)))
        (if-both IsTimed (key == 27) (activate-IsTimed false closed timed)
          (schedule_search-IsTimed s0 timed none_pending none_known)),
  λ b. activate-IsTimed b s h,
  on_search_select_show-IsTimed s h,
  on_search_select_hide-IsTimed s h,
)
