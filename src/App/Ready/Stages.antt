-- ===== src/App/Ready/Stages.antt =====
-- What holds at each stage of main.
use opcua_exporter.Prelude.{◌≡◌, ◌∙◌, ◌≢◌, String, true, false, [], ◌∷◌, ◌++◌, some}
use opcua_exporter.Errors.{Result}
use opcua_exporter.Values.{nil}
use opcua_exporter.Config.{NodeMapping, Config}
use opcua_exporter.Flags.{load_and_apply_config}
use opcua_exporter.Connection.Net.{Client}
use opcua_exporter.Connection.Secured.{IsProtected}
use opcua_exporter.Metrics.{Prometheus, new_registry, create_from_node_mappings}
use opcua_exporter.Metrics.Handlers.{IsServed}
use opcua_exporter.App.{
  World, Process, Stage, loading, configured, connecting, connected, registering, registered,
  serving, shutting, finished, nodes_of, manager_of,
}

module _ {F : Type 0} (w : World F) (fresh : Prometheus) where
  -- The configuration is the one that was loaded.
  abbrev pub Loaded : Config F → Type 0
  Loaded c =
      load_and_apply_config w.flags w.floats w.viper w.environ w.config_file ≡ some (Result.ok c)

  -- The node of the server's time, as OPC UA numbers it.
  abbrev pub server_time : NodeMapping F
  server_time = record {
    node_name = "i=2258";
    metric_name = "opcua_server_time";
    extract_bit = nil;
  }

  abbrev pub Ready : Config F → Type 0
  Ready c = Loaded c × (c.node_mappings ≢ [])

  -- A client of the kind that the settings of the configuration ask for.
  abbrev pub Protected : Config F → Client → Type 0
  Protected c client = IsProtected w.crypto w.network (manager_of w c) client

  -- What holds while the process serves a configuration: it was loaded and has mappings, its nodes are
  -- those of the mappings, and the server's time if it is asked for, the App holds a
  -- client that is protected as the configuration asks, and every node has its handlers.
  pub record IsServing (c : Config F) (p : Process F) : Type 0 where
    pub loaded : Loaded c
    pub mapped : c.node_mappings ≢ []
    pub timed : c.subscribe_to_time_node ≡ true → nodes_of c ≡ c.node_mappings ++ server_time ∷ []
    pub untimed : c.subscribe_to_time_node ≡ false → nodes_of c ≡ c.node_mappings
    pub client : Client
    pub held : p.client ≡ some client
    pub protected : Protected c client
    pub made :
        create_from_node_mappings w.floats w.register c.prom_prefix c.debug
          (nodes_of c)
          (new_registry fresh)
        ≡ (Result.ok tt, p.registry)
    pub served :
        (j : String)
        → IsServed w.floats w.register c.prom_prefix c.debug
            (nodes_of c)
            (new_registry fresh)
            p.registry
            j

  pub IsServing-same :
      (c : Config F) (p q : Process F)
      → q.client ≡ p.client
      → q.registry ≡ p.registry
      → IsServing c p
      → IsServing c q
  IsServing-same c p q e r h = record {
    loaded = h.loaded;
    mapped = h.mapped;
    timed = h.timed;
    untimed = h.untimed;
    client = h.client;
    held = e ∙ h.held;
    protected = h.protected;
    made = rw r h.made;
    served = λ j. rw r (h.served j);
  }

  -- What holds at each stage of main.
  unfoldable pub IsSound : Stage F → Process F → Type 0
  IsSound loading p = p.registry ≡ new_registry fresh
  IsSound (configured c) p = Loaded c × (p.registry ≡ new_registry fresh)
  IsSound (connecting c) p = Ready c × (p.registry ≡ new_registry fresh)
  IsSound (connected c client) p = Ready c × Protected c client × (p.registry ≡ new_registry fresh)
  IsSound (registering c) p =
      Ready c
      × ((client : Client) × (p.client ≡ some client) × Protected c client)
      × (p.registry ≡ new_registry fresh)
  IsSound (registered c) p = IsServing c p
  IsSound (serving c) p = IsServing c p
  IsSound (shutting line) p = Unit
  IsSound finished p = Unit

  -- The other goroutines leave main, the client and the metrics as they are.
  pub IsSound-same :
      (stage : Stage F) (p q : Process F)
      → q.client ≡ p.client
      → q.registry ≡ p.registry
      → IsSound stage p
      → IsSound stage q
  unfolding IsSound
  IsSound-same loading p q c r h = r ∙ h
  IsSound-same (configured k) p q c r (l, h) = (l, r ∙ h)
  IsSound-same (connecting k) p q c r (l, h) = (l, r ∙ h)
  IsSound-same (connected k client) p q c r (l, s, h) = (l, s, r ∙ h)
  IsSound-same (registering k) p q c r (l, (client, e, s), h) = (l, (client, c ∙ e, s), r ∙ h)
  IsSound-same (registered k) p q c r h = IsServing-same k p q c r h
  IsSound-same (serving k) p q c r h = IsServing-same k p q c r h
  IsSound-same (shutting line) p q c r h = tt
  IsSound-same finished p q c r h = tt
