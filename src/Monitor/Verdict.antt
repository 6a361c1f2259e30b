-- ===== src/Monitor/Verdict.antt =====
-- When the loop over a subscription ends, and how.
use opcua_exporter.Prelude.{
  ℕ, suc, ◌+◌, ◌^◌, ◌≤◌, ◌<◌, ◌≡◌, refl, sym, ap, ◌∙◌, ◌⊎◌, String, Bool, true, false, List, [],
  ◌∷◌, Option, none, some, arith, subst, if◌then◌else◌,
}
use opcua_exporter.Prelude.Int.{ℤ, pos, negsuc}
use opcua_exporter.Errors.{Error, Result}
use opcua_exporter.Values.{Floats, Outcome, ok, err, panics, Variant}
use opcua_exporter.Handlers.{Gauges}
use opcua_exporter.Handlers.Summary.{inc, succ64}
use opcua_exporter.Metrics.{HandlerMap}
use opcua_exporter.Monitor.{
  Message, done, message, timeout, Round, State, Stand, running, returned, crashed, after_message,
  receive_value, receive, exceeds, time_out, receive_event, round, go_on, run,
}

module _ {F : Type 0} where
  -- The timeouts among the rounds, whatever stands between them.
  abbrev pub timeouts_of : List (Round F) → ℕ
  timeouts_of [] = 0
  timeouts_of ((t, timeout) ∷ rs) = suc (timeouts_of rs)
  timeouts_of ((t, done) ∷ rs) = timeouts_of rs
  timeouts_of ((t, message m) ∷ rs) = timeouts_of rs

  abbrev pub has_done : List (Round F) → Bool
  has_done [] = false
  has_done ((t, done) ∷ rs) = true
  has_done ((t, timeout) ∷ rs) = has_done rs
  has_done ((t, message m) ∷ rs) = has_done rs

  abbrev pub has_message : List (Round F) → Bool
  has_message [] = false
  has_message ((t, message m) ∷ rs) = true
  has_message ((t, done) ∷ rs) = has_message rs
  has_message ((t, timeout) ∷ rs) = has_message rs

-- The limit is not reached: there is none, or it is above the count.
abbrev pub Below : ℕ → ℤ → Type 0
Below n (pos limit) = (limit ≡ 0) ⊎ (n < limit)
Below n (negsuc limit) = Unit

-- How the loop stands after the rounds, from a count of `start` timeouts.
abbrev pub Expected : {F : Type 0} → ℤ → ℕ → List (Round F) → Stand F → Type 0
Expected max start rs (running s) =
    (s.timeout_count ≡ start + timeouts_of rs) × Below s.timeout_count max × (has_done rs ≡ false)
Expected max start rs (returned (Result.ok u) s) = has_done rs ≡ true
Expected max start rs (returned (Result.err e) s) =
    (max ≡ pos s.timeout_count) × (s.timeout_count ≤ start + timeouts_of rs) × (0 < s.timeout_count)
Expected max start rs (crashed s) = has_message rs ≡ true

exceeds-Below : (n : ℕ) (m : ℤ) → n < 2 ^ 63 → exceeds n m ≡ false → Below n m
unfolding exceeds
exceeds-Below n (pos limit) h e = ground arith
exceeds-Below n (negsuc limit) h e = tt

-- A count that exceeds the limit just after one that did not is the limit.
exceeds-limit : (n : ℕ) (m : ℤ) → Below n m → exceeds (suc n) m ≡ true → m ≡ pos (suc n)
unfolding exceeds
exceeds-limit n (pos limit) h e = let same : limit ≡ suc n = ground arith in ap pos same
exceeds-limit n (negsuc limit) h e = cc

module _ {F : Type 0} (fl : Floats F) (handler_map : HandlerMap F) (max : ℤ) where
  -- A round that is not the last: the loop goes on with the count, or a handler has crashed.
  Quiet : State F → Stand F → Type 0
  Quiet s (running s') = s'.timeout_count ≡ s.timeout_count
  Quiet s (returned result s') = ⊥
  Quiet s (crashed s') = Unit

  after_message-Quiet :
      (s s' : State F) (p : Outcome (Unit {0}) × Gauges F)
      → s'.timeout_count ≡ s.timeout_count
      → Quiet s (after_message fl s' p)
  unfolding Quiet after_message
  after_message-Quiet s s' (ok u, g) h = h
  after_message-Quiet s s' (err e, g) h = h
  after_message-Quiet s s' (panics, g) h = tt

  receive-Quiet :
      (error : Option Error) (value : Option (Variant F)) (node_id : String) (s : State F)
      → Quiet s (receive fl handler_map max error value node_id s)
  unfolding Quiet receive receive_value
  receive-Quiet (some e) value node_id s = refl
  receive-Quiet none none node_id s = refl
  receive-Quiet none (some v) node_id s =
      after_message-Quiet s
        (record s { message_counter = suc s.message_counter; summary = inc s.summary node_id }) _
        refl

  -- A timeout below the limit: the loop goes on, still below it, or it returns its error at the limit.
  Timed : State F → Stand F → Type 0
  Timed s (running s') = (s'.timeout_count ≡ suc s.timeout_count) × Below s'.timeout_count max
  Timed s (returned (Result.ok u) s') = ⊥
  Timed s (returned (Result.err e) s') =
      (s'.timeout_count ≡ suc s.timeout_count) × (max ≡ pos s'.timeout_count)
  Timed s (crashed s') = ⊥

  timed_lem :
      (s s' : State F) (e : Error) (b : Bool)
      → s'.timeout_count ≡ suc s.timeout_count
      → suc s.timeout_count < 2 ^ 63
      → Below s.timeout_count max
      → b ≡ exceeds s'.timeout_count max
      → Timed s (if b then returned (Result.err e) s' else running s')
  unfolding Timed
  timed_lem s s' e true n h below over =
      (n, exceeds-limit s.timeout_count max below (rw n at (sym over)) ∙ ap pos (sym n))
  timed_lem s s' e false n h below over =
      (n, exceeds-Below s'.timeout_count max (omega arith) (sym over))

  time_out-Timed :
      (s : State F)
      → suc s.timeout_count < 2 ^ 63
      → Below s.timeout_count max
      → Timed s (time_out fl handler_map max s)
  unfolding Timed time_out
  time_out-Timed s h below =
      timed_lem s (record s { timeout_count = succ64 s.timeout_count }) _ _ (omega arith) h below
        refl

  -- The round after which the loop went on adds to what the later rounds do.
  Expected-message :
      (start : ℕ) (t : F) (m : Message F) (rs : List (Round F)) (x : Stand F)
      → Expected max start rs x
      → Expected max start ((t, message m) ∷ rs) x
  Expected-message start t m rs (running s) h = h
  Expected-message start t m rs (returned (Result.ok u) s) h = h
  Expected-message start t m rs (returned (Result.err e) s) h = h
  Expected-message start t m rs (crashed s) h = refl

  Expected-timeout :
      (start next : ℕ) (t : F) (rs : List (Round F)) (x : Stand F)
      → next ≡ suc start
      → Expected max next rs x
      → Expected max start ((t, timeout) ∷ rs) x
  Expected-timeout start next t rs (running s) e (n, below, more) = (omega arith, below, more)
  Expected-timeout start next t rs (returned (Result.ok u) s) e h = h
  Expected-timeout start next t rs (returned (Result.err x) s) e (limit, bound, some_timeout) =
      (limit, omega arith, some_timeout)
  Expected-timeout start next t rs (crashed s) e h = h

  go_on-message :
      (s : State F) (t : F) (m : Message F) (rs : List (Round F)) (rest : State F → Stand F)
      (x : Stand F)
      → Quiet s x
      → ((s' : State F)
          → s'.timeout_count ≡ s.timeout_count
          → Expected max s.timeout_count rs (rest s'))
      → Expected max s.timeout_count ((t, message m) ∷ rs) (go_on rest x)
  unfolding Quiet
  go_on-message s t m rs rest (running s') q k =
      Expected-message s.timeout_count t m rs (rest s') (k s' q)
  go_on-message s t m rs rest (returned result s') q k = elim q [ ]
  go_on-message s t m rs rest (crashed s') q k = refl

  go_on-timeout :
      (s : State F) (t : F) (rs : List (Round F)) (rest : State F → Stand F) (x : Stand F)
      → Timed s x
      → ((s' : State F)
          → s'.timeout_count ≡ suc s.timeout_count
          → Below s'.timeout_count max
          → Expected max s'.timeout_count rs (rest s'))
      → Expected max s.timeout_count ((t, timeout) ∷ rs) (go_on rest x)
  unfolding Timed
  go_on-timeout s t rs rest (running s') (n, below) k =
      Expected-timeout s.timeout_count s'.timeout_count t rs (rest s') n (k s' n below)
  go_on-timeout s t rs rest (returned (Result.ok u) s') q k = elim q [ ]
  go_on-timeout s t rs rest (returned (Result.err e) s') (n, limit) k =
      (limit, omega arith, omega arith)
  go_on-timeout s t rs rest (crashed s') q k = elim q [ ]

  -- From a count of timeouts below the limit, with fewer than 2^63 timeouts in all: while the loop runs,
  -- its count has grown by the timeouts of the rounds, whatever stands between them, it is still below
  -- the limit, and no round was done; the loop returns nil only if a round was done, and its error only
  -- when the count is the limit, which is positive; and a handler's panic needs a message.
  pub run-Expected :
      (rs : List (Round F)) (s : State F)
      → s.timeout_count + timeouts_of rs < 2 ^ 63
      → Below s.timeout_count max
      → Expected max s.timeout_count rs (run fl handler_map max rs s)
  unfolding run round receive_event
  run-Expected [] s h below = (omega arith, below, refl)
  run-Expected ((t, done) ∷ rs) s h below = refl
  run-Expected ((t, timeout) ∷ rs) s h below =
      let here : State F = record s { uptime = t } in
      go_on-timeout here t rs (run fl handler_map max rs) _
        (time_out-Timed here (omega arith) below)
        λ s' n below'. run-Expected rs s' (omega arith) below'
  run-Expected ((t, message m) ∷ rs) s h below =
      let here : State F = record s { uptime = t } in
      go_on-message here t m rs (run fl handler_map max rs) _
        (receive-Quiet m.error m.value m.node_id here)
        λ s' n.
          subst (λ k. Expected max k rs (run fl handler_map max rs s')) n
            (run-Expected rs s' (omega arith) (rw n below))
