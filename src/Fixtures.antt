-- ===== src/Fixtures.antt =====
-- Concrete instances of the development's parameters, on which the theorems are tried.
use opcua_exporter.Prelude.{
  String, ◌≡◌, refl, Bool, true, false, [], ◌∷◌, none, some, ◌==◌, if◌then◌else◌, ltb,
}
use opcua_exporter.Prelude.Int.{ℤ, pos, negsuc, eqb_ℤ, pattern_of}
use opcua_exporter.Prelude.Text.{itoa_ℤ}
use opcua_exporter.Errors.{Result}
use opcua_exporter.Values.{
  Value, nil, float64, type_name, integer, int, Floats, Outcome, ok, err, panics,
}
use opcua_exporter.Config.{NodeMapping, Config, seconds, minutes}
use opcua_exporter.Flags.{FlagValues}
use opcua_exporter.Config.Load.{Viper, loaded}
use opcua_exporter.Metrics.{Register, Registry}
use opcua_exporter.Security.{Missing}
use opcua_exporter.Security.Certificates.{rsa, Certificate, LeafCertificate, Block, Crypto}
use opcua_exporter.Security.Endpoint.{mode_sign, token_user_name, EndpointDescription}
use opcua_exporter.Connection.Net.{Network, Trace, Io}
use opcua_exporter.Connection.Retry.{Backoff, Retried, succeeds, gives_up, crashes}

abbrev is_less : ℤ → ℤ → Bool
is_less (pos m) (pos n) = ltb m n
is_less (pos m) (negsuc n) = false
is_less (negsuc m) (pos n) = true
is_less (negsuc m) (negsuc n) = ltb n m

abbrev printed : Value ℤ → String
printed (integer kind n) = itoa_ℤ n
printed (float64 x) = itoa_ℤ x
printed v = type_name v

-- Floats that hold only whole numbers.
abbrev pub whole : Floats ℤ
whole = record {
  of_ℤ = λ n. n;
  to_ℤ = λ x. x;
  ltb = λ x y. is_less x y;
  eqb = λ x y. eqb_ℤ x y;
  bits64 = λ x. pattern_of 64 x;
  bits32 = λ x. pattern_of 32 x;
  format = λ x. itoa_ℤ x;
  print_value = λ v. printed v;
}

-- A disk with a certificate and its key.
abbrev on_disk : Missing
on_disk path = if path == "client.crt" then false else if path == "client.key" then false else true

abbrev pub leaf : LeafCertificate
leaf = record { not_before = 100; not_after = 200; ext_key_usage = 1 ∷ 2 ∷ []; key_usage = 5 }

abbrev pub pair : Certificate
pair = record { chain = (1 ∷ 2 ∷ []) ∷ []; private_key = rsa 7 }

abbrev pub key_block : Block
key_block = record { block_type = "RSA PRIVATE KEY"; bytes = 1 ∷ 2 ∷ [] }

abbrev pub crypto : Crypto
crypto = record {
  missing = on_disk;
  load_x509_key_pair = λ cert key. Result.ok pair;
  parse_certificate = λ bytes. Result.ok leaf;
  decode = λ bytes. some key_block;
  parse_pkcs1_private_key = λ bytes. Result.ok (rsa 7);
  parse_pkcs8_private_key = λ bytes. Result.ok (rsa 7);
}

abbrev pub offer : EndpointDescription
offer = record {
  endpoint_url = "opc.tcp://plc:4840";
  security_mode = mode_sign;
  security_policy_uri = "http://opcfoundation.org/UA/SecurityPolicy#Basic256Sha256";
  user_identity_tokens = token_user_name ∷ [];
}

-- A server that answers every call.
abbrev pub answering : Network
answering = record {
  new_client_error = λ t url options. none;
  dial_error = λ t n. none;
  connect_error = λ t n. none;
  close_error = λ t n. none;
  endpoints_answer = λ t n. Result.ok (offer ∷ []);
}

pub once_lem :
    {A : Type 0} (op : Io A) (t t' : Trace) (o : Outcome A) → op t ≡ (o, t') → Retried op o t' t
once_lem op t t' (ok a) e = succeeds a e refl
once_lem op t t' (err x) e = gives_up x x e refl
once_lem op t t' panics e = crashes e refl

-- A backoff that gives up after the first attempt.
abbrev pub once : Backoff
once = record { retry = λ {A} op. op; retried = λ {A} op t. once_lem op t (op t).1 (op t).0 refl }

abbrev pub pump : NodeMapping ℤ
pump = record { node_name = "ns=2;s=Pump"; metric_name = "pump"; extract_bit = nil }

abbrev pub valve : NodeMapping ℤ
valve = record {
  node_name = "ns=2;s=Valve";
  metric_name = "valve";
  extract_bit = integer int (pos 3);
}

-- What a config file with two mappings and no port gives.
abbrev pub settings : Config ℤ
settings = record {
  port = pos 0;
  endpoint = "opc.tcp://plc:4840";
  prom_prefix = "plant";
  config_file = "";
  debug = false;
  read_timeout = seconds 5;
  max_timeouts = pos 0;
  buffer_size = pos 64;
  summary_interval = minutes 5;
  subscribe_to_time_node = false;
  node_mappings = pump ∷ valve ∷ [];
  security = record {
    security_mode = "Sign";
    security_policy = "Basic256Sha256";
    auth_mode = "Username";
    username = "operator";
    password = "";
    certificate_file = "client.crt";
    private_key_file = "client.key";
    auto_trust = false;
  };
  timeouts = record {
    dial_timeout = seconds 10;
    request_timeout = seconds 5;
    session_timeout = minutes 20;
    connection_retry_timeout = minutes 5;
  };
}

abbrev pub viper : Viper ℤ
viper = record { read_answer = λ calls. loaded; unmarshal = λ calls. Result.ok settings }

abbrev pub accepting : Register
accepting registered name = none

abbrev pub empty_registry : Registry ℤ
empty_registry = record {
  handler_map = [];
  prometheus = record { registered = []; next_gauge = 0 };
}

-- A command line without flags.
abbrev pub no_flags : FlagValues
no_flags = record {
  is_set = λ name. false;
  get_int = λ name. pos 0;
  get_string = λ name. "";
  get_bool = λ name. false;
  get_duration = λ name. pos 0;
  get_string_slice = λ name. [];
}
