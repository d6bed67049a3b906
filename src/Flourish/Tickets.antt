-- ===== src/Flourish/Tickets.antt =====
-- flourish/server/auth/ticket.go: the tickets with which a web socket proves that its client is
-- authenticated. A ticket is the number of its 32 random bytes, which hexadecimal only spells out,
-- and a time is a number of nanoseconds. The map is a function.
use tanzlaurel.Base.{
  ℕ, ◌+◌, ◌≤◌, ◌≡◌, ◌≢◌, refl, sym, ◌∙◌, Bool, false, Option, none, some, ltb, ◌==◌, if◌then◌else◌,
  arith, ==_iff, inl, inr, Option-cases, Bool-cases,
}

pub record TicketStore : Type 0 where
  pub tickets : ℕ → Option ℕ
  pub ttl : ℕ

unfoldable pub new_ticket_store : ℕ → TicketStore
new_ticket_store ttl = record { tickets = λ t. none; ttl = ttl }

-- `now.After(exp)` is the test for expired.
unfoldable pub kept : ℕ → Option ℕ → Option ℕ
kept now none = none
kept now (some exp) = if ltb exp now then none else some exp

unfoldable pub cleanup : ℕ → TicketStore → TicketStore
cleanup now s = record s { tickets = λ t. kept now (s.tickets t) }

-- `ticket` is what the random numbers give.
unfoldable pub issue : ℕ → ℕ → TicketStore → TicketStore
issue now ticket s =
    let s' = cleanup now s in
    record s' { tickets = λ t. if t == ticket then some (now + s.ttl) else s'.tickets t }

unfoldable pub redeem : ℕ → ℕ → TicketStore → TicketStore × Bool
redeem now ticket s =
    let s' = cleanup now s in
    elim (s'.tickets ticket) [
      | none ↦ (s', false)
      | some exp ↦
          (record s' { tickets = λ t. if t == ticket then none else s'.tickets t }, ltb now exp)
    ]

-- Is a ticket with this time good at `now`?
is_good : ℕ → Option ℕ → Bool
is_good now none = false
is_good now (some exp) = ltb now exp

is_good-kept : (t0 t1 : ℕ) (o : Option ℕ) → t0 ≤ t1 → is_good t1 (kept t0 o) ≡ is_good t1 o
unfolding is_good kept
is_good-kept t0 t1 none h = refl
is_good-kept t0 t1 (some exp) h = ground arith

answer_lem :
    (now ticket : ℕ) (s : TicketStore) → (redeem now ticket s).1 ≡ is_good now (s.tickets ticket)
unfolding redeem cleanup kept is_good
answer_lem now ticket s = elim (Option-cases (s.tickets ticket)) [
  | inl e ↦ rw (e, redeem, kept, is_good) refl
  | inr (exp, e) ↦ elim (Bool-cases (ltb exp now)) [
    | inl late ↦ rw (e, late, redeem, kept, is_good) (ground arith)
    | inr early ↦ rw (e, early, redeem, kept, is_good) refl
  ]
]

gone_lem : (now ticket : ℕ) (s : TicketStore) → (redeem now ticket s).0.tickets ticket ≡ none
unfolding redeem cleanup
gone_lem now ticket s = elim (Option-cases (kept now (s.tickets ticket))) [
  | inl e ↦ rw (e, redeem) e
  | inr (exp, e) ↦ rw (e, redeem) (ground arith)
]

issue-tickets :
    (t0 ticket t : ℕ) (s : TicketStore)
    → (issue t0 ticket s).tickets t
      ≡ (if t == ticket then some (t0 + s.ttl) else kept t0 (s.tickets t))
unfolding issue cleanup
issue-tickets t0 ticket t s = refl

-- A ticket that is redeemed at or after the time of its issue is good exactly before its time has
-- run out, and after that use it is refused at any time. Issuing it has no effect on the other
-- tickets.
pub redeem-issue :
    (s : TicketStore) (ticket t0 t1 t2 : ℕ)
    → t0 ≤ t1
    → ((redeem t1 ticket (issue t0 ticket s)).1 ≡ ltb t1 (t0 + s.ttl))
      × ((redeem t2 ticket (redeem t1 ticket (issue t0 ticket s)).0).1 ≡ false)
      × ((other : ℕ)
          → other ≢ ticket
          → (redeem t1 other (issue t0 ticket s)).1 ≡ (redeem t1 other s).1)
unfolding is_good
redeem-issue s ticket t0 t1 t2 h = (
  answer_lem t1 ticket (issue t0 ticket s)
      ∙ rw (issue-tickets t0 ticket ticket s, (==_iff ticket ticket).1 refl, is_good) refl,
  rw
      (
        answer_lem t2 ticket (redeem t1 ticket (issue t0 ticket s)).0,
        gone_lem t1 ticket (issue t0 ticket s),
      )
      refl,
  λ other ne.
      answer_lem t1 other (issue t0 ticket s)
      ∙ rw (issue-tickets t0 ticket other s, apart other ne)
          (is_good-kept t0 t1 (s.tickets other) h)
      ∙ sym (answer_lem t1 other s),
)
  where
    apart : (other : ℕ) → other ≢ ticket → (other == ticket) ≡ false
    apart other ne = ground arith
