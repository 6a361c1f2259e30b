-- ===== src/Errors/Chain.antt =====
-- What a chain of errors says and where it ends.
use text.Mathlib.TextLemmas.{append_assoc, nil-append}
use opcua_exporter.Prelude.{String, none, some, ◌≡◌, refl, sym, ap, ◌∙◌}
use opcua_exporter.Prelude.Text.{◌<>◌}
use opcua_exporter.Errors.{
  Error, errorf, wrap, config_error, connection_error, metric_error, permanent, error_text, unwrap,
}

-- The error at the end of the chain of `Unwrap`s.
pub root_cause : Error → Error
root_cause (errorf s) = errorf s
root_cause (wrap s e) = root_cause e
root_cause (config_error field value e) = root_cause e
root_cause (connection_error endpoint e) = root_cause e
root_cause (metric_error metric_name node_name e) = root_cause e
root_cause (permanent e) = root_cause e

abbrev pub EndsWith : String → String → Type 0
EndsWith s t = (p : String) × (s ≡ p <> t)

EndsWith-refl : (t : String) → EndsWith t t
EndsWith-refl t = ("", sym (nil-append t))

EndsWith-append : (q s t : String) → EndsWith s t → EndsWith (q <> s) t
EndsWith-append q s t (p, e) = (q <> p, rw e (sym (append_assoc q p t)))

EndsWith-inner :
    (s : String) (e inner : Error)
    → EndsWith s (error_text e)
    → some e ≡ some inner
    → EndsWith s (error_text inner)
EndsWith-inner s e inner (p, h) same =
    let unwrapped : e ≡ inner = cc in (p, h ∙ ap (λ x. p <> error_text x) unwrapped)

-- Each wrapper puts a text in front.
text-unwrap : (e inner : Error) → unwrap e ≡ some inner → EndsWith (error_text e) (error_text inner)
unfolding error_text unwrap
text-unwrap (errorf s) inner h = cc
text-unwrap (wrap s e) inner h =
    EndsWith-inner _ e inner (EndsWith-append s _ _ (EndsWith-append ": " _ _ (EndsWith-refl _))) h
text-unwrap (config_error field value e) inner h =
    EndsWith-inner _ e inner
      (EndsWith-append "config field " _ _ (
        EndsWith-append field _ _ (
          EndsWith-append ": " _ _
            (EndsWith-append value _ _ (EndsWith-append ": " _ _ (EndsWith-refl _))))))
      h
text-unwrap (connection_error endpoint e) inner h =
    EndsWith-inner _ e inner
      (EndsWith-append "connection to " _ _
        (EndsWith-append endpoint _ _ (EndsWith-append " failed: " _ _ (EndsWith-refl _))))
      h
text-unwrap (metric_error metric_name node_name e) inner h =
    EndsWith-inner _ e inner
      (EndsWith-append "metric " _ _ (
        EndsWith-append metric_name _ _ (
          EndsWith-append " for node " _ _
            (EndsWith-append node_name _ _ (EndsWith-append ": " _ _ (EndsWith-refl _))))))
      h
text-unwrap (permanent e) inner h = EndsWith-inner _ e inner (EndsWith-refl _) h

EndsWith-trans : (s t u : String) → EndsWith s t → EndsWith t u → EndsWith s u
EndsWith-trans s t u (p, e) (q, f) = (p <> q, e ∙ ap (λ x. p <> x) f ∙ sym (append_assoc p q u))

root_cause-unwrap :
    (e inner : Error)
    → unwrap e ≡ some inner
    → EndsWith (error_text inner) (error_text (root_cause inner))
    → EndsWith (error_text e) (error_text (root_cause inner))
root_cause-unwrap e inner h k = EndsWith-trans _ (error_text inner) _ (text-unwrap e inner h) k

EndsWith-root_cause : (e : Error) → EndsWith (error_text e) (error_text (root_cause e))
unfolding root_cause unwrap
EndsWith-root_cause (errorf s) = EndsWith-refl _
EndsWith-root_cause (wrap s e) = root_cause-unwrap (wrap s e) e refl (EndsWith-root_cause e)
EndsWith-root_cause (config_error f v e) =
    root_cause-unwrap (config_error f v e) e refl (EndsWith-root_cause e)
EndsWith-root_cause (connection_error a e) =
    root_cause-unwrap (connection_error a e) e refl (EndsWith-root_cause e)
EndsWith-root_cause (metric_error m n e) =
    root_cause-unwrap (metric_error m n e) e refl (EndsWith-root_cause e)
EndsWith-root_cause (permanent e) = root_cause-unwrap (permanent e) e refl (EndsWith-root_cause e)

unwrap-root_cause : (e : Error) → unwrap (root_cause e) ≡ none
unfolding root_cause unwrap
unwrap-root_cause (errorf s) = refl
unwrap-root_cause (wrap s e) = unwrap-root_cause e
unwrap-root_cause (config_error f v e) = unwrap-root_cause e
unwrap-root_cause (connection_error a e) = unwrap-root_cause e
unwrap-root_cause (metric_error m n e) = unwrap-root_cause e
unwrap-root_cause (permanent e) = unwrap-root_cause e

-- A chain ends at an error that unwraps to nothing, whose text ends the text of the whole, and the
-- text of an error ends with the text of the error that it unwraps to.
pub text-root_cause :
    (e : Error)
    → EndsWith (error_text e) (error_text (root_cause e))
      × (unwrap (root_cause e) ≡ none)
      × ((inner : Error) → unwrap e ≡ some inner → EndsWith (error_text e) (error_text inner))
text-root_cause e = (EndsWith-root_cause e, unwrap-root_cause e, text-unwrap e)
