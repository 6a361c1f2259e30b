-- ===== src/App/Shutdown/Lines.antt =====
-- What each goroutine has done at its line of shutdown, with a client and a server held.
use opcua_exporter.Prelude.{
  ℕ, zero, suc, ◌≡◌, refl, inl, inr, Bool, true, List, [], ◌∷◌, ◌++◌, Option, none, some, Among,
  arith,
}
use opcua_exporter.Connection.Net.{Network, Client, Trace, closed, close_client}
use opcua_exporter.App.{
  World, Process, Stage, serving, shutting, finished, Thread, absent, waiting, ended, at_line, Line,
  closing, stopping, cancelling, exiting, next_line, close_if, is_some, shutdown_line,
}

Among-old : {A : Type 0} (a : A) (xs ys : List A) → Among a xs → Among a (xs ++ ys)
Among-old a [] ys h = elim h [ ]
Among-old a (x ∷ xs) ys (inl e) = inl e
Among-old a (x ∷ xs) ys (inr h) = inr (Among-old a xs ys h)

Among-new : {A : Type 0} (a : A) (xs : List A) → Among a (xs ++ a ∷ [])
Among-new a [] = inl refl
Among-new a (x ∷ xs) = inr (Among-new a xs)

module _ {F : Type 0} (w : World F) (k : Client) where
  -- The client was closed.
  abbrev pub Closed : Trace → Type 0
  Closed t = Among (closed k.number) t

  -- What a goroutine has done when it comes to a line of shutdown.
  abbrev pub Done : Line → Trace → Bool → Bool → Type 0
  Done closing t stopped cancelled = Unit
  Done stopping t stopped cancelled = Closed t
  Done cancelling t stopped cancelled = Closed t × (stopped ≡ true)
  Done exiting t stopped cancelled = Closed t × (stopped ≡ true) × (cancelled ≡ true)

  abbrev pub ThreadDone : Thread → Trace → Bool → Bool → Type 0
  ThreadDone (at_line line) t stopped cancelled = Done line t stopped cancelled
  ThreadDone _ t stopped cancelled = Unit

  -- Main does not go back behind serving.
  abbrev pub MainDone : Stage F → Trace → Bool → Bool → Type 0
  MainDone (serving c) t stopped cancelled = Unit
  MainDone (shutting line) t stopped cancelled = Done line t stopped cancelled
  MainDone finished t stopped cancelled = stopped ≡ true
  MainDone _ t stopped cancelled = ⊥

  abbrev pub Ended : Option ℕ → Trace → Bool → Bool → Type 0
  Ended none t stopped cancelled = Unit
  Ended (some (suc (suc zero))) t stopped cancelled = Unit
  Ended (some _) t stopped cancelled = Done exiting t stopped cancelled

  pub record IsTidy (p : Process F) : Type 0 where
    pub client : p.client ≡ some k
    pub server : is_some p.server ≡ true
    pub main : MainDone p.main p.trace p.stopped p.cancelled
    pub signal : ThreadDone p.signal p.trace p.stopped p.cancelled
    pub monitor : ThreadDone p.monitor p.trace p.stopped p.cancelled
    pub ended : Ended p.exit p.trace p.stopped p.cancelled

  -- What was done stays done.
  pub record Grows (t t' : Trace) (s s' c c' : Bool) : Type 0 where
    pub closed : Closed t → Closed t'
    pub stopped : s ≡ true → s' ≡ true
    pub cancelled : c ≡ true → c' ≡ true

  module _ {t t' : Trace} {s s' c c' : Bool} (g : Grows t t' s s' c c') where
    Done-Grows : (line : Line) → Done line t s c → Done line t' s' c'
    Done-Grows closing h = tt
    Done-Grows stopping h = g.closed h
    Done-Grows cancelling (h, i) = (g.closed h, g.stopped i)
    Done-Grows exiting (h, i, l) = (g.closed h, g.stopped i, g.cancelled l)

    pub ThreadDone-Grows : (x : Thread) → ThreadDone x t s c → ThreadDone x t' s' c'
    ThreadDone-Grows (at_line line) h = Done-Grows line h
    ThreadDone-Grows absent h = tt
    ThreadDone-Grows waiting h = tt
    ThreadDone-Grows ended h = tt

    pub MainDone-Grows : (m : Stage F) → MainDone m t s c → MainDone m t' s' c'
    MainDone-Grows (serving conf) h = tt
    MainDone-Grows (shutting line) h = Done-Grows line h
    MainDone-Grows finished h = g.stopped h
    MainDone-Grows _ h = elim h [ ]

  pub Ended-none : (e : Option ℕ) (t : Trace) (s c : Bool) → e ≡ none → Ended e t s c
  Ended-none none t s c h = tt
  Ended-none (some n) t s c h = cc

  pub close_if-Closed :
      (net : Network) (held : Option Client) (t : Trace)
      → held ≡ some k
      → Closed (close_if net held t)
  unfolding close_if close_client
  close_if-Closed net held t e = rw e (Among-new _ t)

  pub close_if-keeps :
      (net : Network) (held : Option Client) (t : Trace) → Closed t → Closed (close_if net held t)
  unfolding close_if close_client
  close_if-keeps net none t h = h
  close_if-keeps net (some other) t h = Among-old _ t _ h

  -- A line of shutdown, run by some goroutine that came to it.
  pub record LineDone (line : Line) (p q : Process F) : Type 0 where
    pub grows : Grows p.trace q.trace p.stopped q.stopped p.cancelled q.cancelled
    pub done : Done (next_line line) q.trace q.stopped q.cancelled
    pub ended : Ended q.exit q.trace q.stopped q.cancelled
    pub client : q.client ≡ p.client
    pub server : q.server ≡ p.server
    pub main : q.main ≡ p.main
    pub signal : q.signal ≡ p.signal
    pub monitor : q.monitor ≡ p.monitor

  pub line_done :
      (line : Line) (p : Process F)
      → p.exit ≡ none
      → IsTidy p
      → Done line p.trace p.stopped p.cancelled
      → LineDone line p (shutdown_line w line p)
  unfolding shutdown_line
  line_done closing p e h d = record {
    grows = record {
      closed = close_if-keeps w.network p.client p.trace;
      stopped = λ x. x;
      cancelled = λ x. x;
    };
    done = close_if-Closed w.network p.client p.trace h.client;
    ended = Ended-none p.exit _ _ _ e;
    client = refl;
    server = refl;
    main = refl;
    signal = refl;
    monitor = refl;
  }
  line_done stopping p e h d = record {
    grows = record { closed = λ x. x; stopped = λ x. ground arith; cancelled = λ x. x };
    done = (d, rw h.server (ground arith));
    ended = Ended-none p.exit _ _ _ e;
    client = refl;
    server = refl;
    main = refl;
    signal = refl;
    monitor = refl;
  }
  line_done cancelling p e h d = record {
    grows = record { closed = λ x. x; stopped = λ x. x; cancelled = λ x. refl };
    done = (d.0, d.1, refl);
    ended = Ended-none p.exit _ _ _ e;
    client = refl;
    server = refl;
    main = refl;
    signal = refl;
    monitor = refl;
  }
  line_done exiting p e h d = record {
    grows = record { closed = λ x. x; stopped = λ x. x; cancelled = λ x. x };
    done = d;
    ended = d;
    client = refl;
    server = refl;
    main = refl;
    signal = refl;
    monitor = refl;
  }
