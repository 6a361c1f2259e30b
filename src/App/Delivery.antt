-- ===== src/App/Delivery.antt =====
-- From the start of the process to a metric.
use opcua_exporter.Prelude.{refl, subst, Option, none, some, ℕ, ◌≡◌, ◌≢◌, String, List, ◌++◌, map}
use opcua_exporter.Values.{nil, Outcome, ok, err, panics, ◌>>=◌, Variant}
use opcua_exporter.Config.{Config}
use opcua_exporter.Handlers.{Gauges}
use opcua_exporter.Metrics.{Prometheus, Register, registered_gauge}
use opcua_exporter.Errors.{Error}
use opcua_exporter.Metrics.Handlers.{mappings_of}
use opcua_exporter.Metrics.Named.{Below, registered_gauge-Below}
use opcua_exporter.Monitor.{handle_message}
use opcua_exporter.Monitor.Delivered.{by_name, delivered, handle_message-delivered}
use opcua_exporter.App.{World, Process, serving, nodes_of, must_register, init, started}
use opcua_exporter.App.Steps.{Reach}
use opcua_exporter.App.Ready.{Reach-IsServing}

must_register-Below :
    (register : Register) (name : String) (p q : Prometheus) (answer : Option Error)
    → register p.registered name ≡ answer
    → must_register register name p ≡ ok q
    → Below p.next_gauge p.registered
    → Below q.next_gauge q.registered
unfolding must_register
must_register-Below register name p q none e h below =
    let made : ok (registered_gauge name p) ≡ ok q = rw (e, must_register) at h in
    let same : registered_gauge name p ≡ q = cc made in
    subst (λ (x : Prometheus). Below x.next_gauge x.registered) same
      (registered_gauge-Below name p below)
must_register-Below register name p q (some x) e h below =
    let failed : ◌≡◌ {A = Outcome Prometheus} panics (ok q) = rw (e, must_register) at h in
    cc failed

>>=-eq-ok :
    {A B : Type 0} (o : Outcome A) (f : A → Outcome B) {b : B}
    → (o >>= f) ≡ ok b
    → (a : A) × (o ≡ ok a) × (f a ≡ ok b)
>>=-eq-ok (ok a) f h = (a, refl, h)
>>=-eq-ok (err e) f h = cc h
>>=-eq-ok panics f h = cc h

-- init numbers its metrics apart from those before.
init-Below :
    (register : Register) (p q : Prometheus)
    → init register p ≡ ok q
    → Below p.next_gauge p.registered
    → Below q.next_gauge q.registered
unfolding init
init-Below register p q h below =
    let (r, first, second) =
      >>=-eq-ok (must_register register "opcua_exporter_uptime_seconds" p) _ h in
    must_register-Below register _ r q _ refl second
      (must_register-Below register _ p r _ refl first below)

-- Whenever the process serves a configuration, under any interleaving of its goroutines, a message for
-- a node with a value sets exactly the metrics that the configuration maps the node to, the server's
-- time too if it is asked for, by their full names and in their order: each to the bit that the mapping
-- names, or to the value, and none where that is an error; provided that init
-- registered its two metrics, with gauges before them that are numbered below the next one. No handler
-- panics.
pub Reach-delivered :
    {F : Type 0} (w : World F) (before fresh : Prometheus) (c : Config F) {p : Process F}
    (j : String) (v : Variant F) (gauges : Gauges F)
    → Below before.next_gauge before.registered
    → init w.register before ≡ ok fresh
    → Reach w (started fresh) p
    → p.main ≡ serving c
    → v.value ≢ nil
    → (sets : List (ℕ × F)) × (handle_message w.floats p.registry.handler_map j v gauges
        ≡ (ok tt, gauges ++ sets))
      × (map (by_name p.registry.prometheus.registered) sets
          ≡ delivered w.floats c.prom_prefix (mappings_of j (nodes_of c)) v)
Reach-delivered w before fresh c j v gauges below inits r at there =
    handle_message-delivered w.floats w.register c.prom_prefix c.debug fresh (nodes_of c) _ j v
      gauges (init-Below w.register before fresh inits below) (Reach-IsServing w fresh c r at).made
      there
