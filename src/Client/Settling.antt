-- ===== src/Client/Settling.antt =====
-- The promises of the calls and the timers that are to settle them.
pub mod Timers
pub mod Answers
pub mod Connections
use node_red_contrib_pod_gat.Prelude.{
  ℕ, suc, ◌+◌, ◌≤◌, ◌<◌, ◌≡◌, ◌≢◌, refl, subst, sym, ap, ◌∙◌, Bool, true, false, not, ◌&&◌, ◌||◌,
  Option, none, some, List, [], ◌∷◌, ◌++◌, String, string_eq, ◌==◌, arith, eqb, ltb, All,
  Bool-cases, Option-cases, inl, inr, if◌then◌else◌, eq_iff, or_else,
}
use node_red_contrib_pod_gat.Map.{Map, get, set, delete, values, get-set, get-delete}
use node_red_contrib_pod_gat.Gateway.Types.{Failure}
use node_red_contrib_pod_gat.Client.Types.{Client, Call, Outcome, Alarm, Incoming}
use node_red_contrib_pod_gat.Client.Calls.{
  is_settled, settle, disarm, clear_timer, clear_accept_timer, find_alarm, enter, reject_calls,
  reject_aliases, reject_pending, all_aliases, timed_out, accept_late, accept_timed_out,
  timer_fires, accept_timer_fires,
}

abbrev pub is_armed : ℕ → List Alarm → Bool
is_armed n [] = false
is_armed n (a ∷ rest) = eqb a.call n || is_armed n rest

-- What the connection leaves alone: the promises, their timers and who is pending.
pub record Book : Type 0 where
  pub outcomes : List (ℕ × Outcome)
  pub timers : List Alarm
  pub accept_timers : List Alarm
  pub pending : Map String Call
  pub next_call : ℕ

abbrev pub book : Client → Book
book c = record {
  outcomes = c.outcomes;
  timers = c.timers;
  accept_timers = c.accept_timers;
  pending = c.pending;
  next_call = c.next_call;
}

-- The promise is settled, or its timer is going to settle it.
abbrev pub is_covered : Book → ℕ → Bool
is_covered b n = is_settled n b.outcomes || is_armed n b.timers

-- Whoever is pending under an ID was pending there before.
abbrev pub Below : Map String Call → Map String Call → Type 0
Below m' m =
    (id : String) (p : Call)
    → get m' id ≡ some p
    → (q : Call) × (get m id ≡ some q) × (q.serial ≡ p.serial)

-- A change that issues no call: no promise loses its cover, and no accept timer is set.
pub record Keeps (b d : Book) : Type 1 where
  pub covers : (n : ℕ) → is_covered b n ≡ true → is_covered d n ≡ true
  pub next : d.next_call ≡ b.next_call
  pub below : Below d.pending b.pending
  pub alarms : (P : Alarm → Type 0) → All P b.accept_timers → All P d.accept_timers

pub Below-refl : (m : Map String Call) → Below m m
Below-refl m id p e = (p, e, refl)

pub Below-delete : (m : Map String Call) (key : String) → Below (delete m key) m
Below-delete m key id p e = elim (Bool-cases (key == id)) [
  | inl k ↦ absurd (cc (rw (get-delete m key id, k) at e))
  | inr k ↦ (p, rw (get-delete m key id, k) at e, refl)
]

pub Below-nil : (m : Map String Call) → Below [] m
unfolding get
Below-nil m id p e = absurd (cc e)

pub Keeps-refl : (b : Book) → Keeps b b
Keeps-refl b = record {
  covers = λ n h. h;
  next = refl;
  below = Below-refl b.pending;
  alarms = λ P h. h;
}

pub Keeps-trans : (b d f : Book) → Keeps b d → Keeps d f → Keeps b f
Keeps-trans b d f k l = record {
  covers = λ n h. l.covers n (k.covers n h);
  next = l.next ∙ k.next;
  below = λ id p e.
      let (q, eq, s) = l.below id p e in let (r, er, t) = k.below id q eq in (r, er, t ∙ s);
  alarms = λ P h. l.alarms P (k.alarms P h);
}

pub disarm_armed :
    (n m : ℕ) (xs : List Alarm) → is_armed m (disarm n xs) ≡ (is_armed m xs && not (eqb n m))
unfolding disarm
disarm_armed n m [] = refl
disarm_armed n m (a ∷ xs) = ground (arith, disarm_armed n m xs)

pub All-disarm : (P : Alarm → Type 0) (n : ℕ) (xs : List Alarm) → All P xs → All P (disarm n xs)
unfolding disarm
All-disarm P n [] h = tt
All-disarm P n (a ∷ xs) h = elim (Bool-cases (eqb a.call n)) [
  | inl e ↦ rw (e, disarm) (All-disarm P n xs h.1)
  | inr e ↦ rw (e, disarm) (h.0, All-disarm P n xs h.1)
]

pub settle_settled :
    (c : Client) (n m : ℕ) (o : Outcome)
    → is_settled m (settle c n o).outcomes ≡ (is_settled m c.outcomes || eqb n m)
unfolding settle is_settled
settle_settled c n m o = elim (Bool-cases (is_settled n c.outcomes)) [
  | inl e ↦ rw (e, settle) (ground (arith, e))
  | inr e ↦ rw (e, settle) (ground arith)
]

book-settle :
    (c : Client) (n : ℕ) (o : Outcome)
    → book (settle c n o) ≡ record (book c) { outcomes = (settle c n o).outcomes }
unfolding settle
book-settle c n o = elim (Bool-cases (is_settled n c.outcomes)) [
  | inl e ↦ rw (e, settle) refl
  | inr e ↦ rw (e, settle) refl
]

-- A promise is settled and its timer cleared; `m` is pending afterwards, and `xs` may still be late.
pub settle-Keeps :
    (b : Book) (c : Client) (n : ℕ) (o : Outcome)
    → c.outcomes ≡ b.outcomes
    → c.timers ≡ disarm n b.timers
    → c.next_call ≡ b.next_call
    → Below c.pending b.pending
    → ((P : Alarm → Type 0) → All P b.accept_timers → All P c.accept_timers)
    → Keeps b (book (settle c n o))
settle-Keeps b c n o e t k below alarms = rw (book-settle c n o) (record {
  covers =
      λ m h. rw (settle_settled c n m o, e, t) (rw (disarm_armed n m b.timers) (ground (arith, h)));
  next = k;
  below = below;
  alarms = alarms;
})
