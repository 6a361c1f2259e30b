-- ===== src/Errors/Examples.antt =====
-- A chain of errors of a failed connection.
use opcua_exporter.Prelude.{◌≡◌, none, some}
use opcua_exporter.Errors.{Error, errorf, wrap, connection_error, error_text, unwrap}
use opcua_exporter.Errors.Chain.{EndsWith, root_cause, text-root_cause}

abbrev refused : Error
refused = connection_error "opc.tcp://plc:4840" (wrap "failed to connect" (errorf "EOF"))

text-root_cause_example :
    EndsWith (error_text refused) (error_text (root_cause refused))
    × (unwrap (root_cause refused) ≡ none)
    × ((inner : Error)
        → unwrap refused ≡ some inner
        → EndsWith (error_text refused) (error_text inner))
text-root_cause_example = text-root_cause refused
