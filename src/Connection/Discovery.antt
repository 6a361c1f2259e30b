-- ===== src/Connection/Discovery.antt =====
-- What becomes of the client that discovers the endpoints.
use opcua_exporter.Prelude.{◌≡◌, refl, ap, List, [], ◌∷◌, ◌++◌, none, length}
use opcua_exporter.Security.Certificates.{Crypto}
use opcua_exporter.Security.Endpoint.{mode_none}
use opcua_exporter.Security.Options.{ClientOption, security_mode}
use opcua_exporter.Connection.Net.{
  Network, Client, Trace, made, dialled, closed, ◌>>=◌, new_client, dial, mapping_errors,
  deferring_close,
}
use opcua_exporter.Connection.{Manager, discover, connect_with_endpoint_discovery}

abbrev discovery_options : List ClientOption
discovery_options = security_mode mode_none ∷ []

module _ (crypto : Crypto) (net : Network) (m : Manager) where
  -- The discovery client of an attempt that begins after the calls.
  abbrev pub discovery_of : Trace → Client
  discovery_of t = record { number = length t; url = m.endpoint; options = discovery_options }

  abbrev pub dialled_after : Trace → Trace
  dialled_after t = (t ++ made (discovery_of t) ∷ []) ++ dialled (length t) ∷ []

  connect-discover :
      (t : Trace)
      → net.new_client_error t m.endpoint discovery_options ≡ none
      → net.dial_error (t ++ made (discovery_of t) ∷ []) (length t) ≡ none
      → connect_with_endpoint_discovery crypto net m t
        ≡ deferring_close
            (discovery_of t)
            (discover crypto net m (discovery_of t))
            (dialled_after t)
  unfolding connect_with_endpoint_discovery ◌>>=◌ new_client dial mapping_errors
  connect-discover t created dialled_too = rw (created, dialled_too) refl

  -- Once the discovery client is dialled, its Close is the last call of the network, whether the
  -- attempt returns a client, fails or panics.
  pub connect-closes :
      (t : Trace)
      → net.new_client_error t m.endpoint discovery_options ≡ none
      → net.dial_error (t ++ made (discovery_of t) ∷ []) (length t) ≡ none
      → (before : Trace) × ((connect_with_endpoint_discovery crypto net m t).1
          ≡ before ++ closed (length t) ∷ [])
  unfolding deferring_close
  connect-closes t created dialled_too = (
    (discover crypto net m (discovery_of t) (dialled_after t)).1,
    ap (λ p. p.1) (connect-discover t created dialled_too),
  )
