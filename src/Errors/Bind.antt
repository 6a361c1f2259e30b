-- ===== src/Errors/Bind.antt =====
-- Inversion of a chain of calls that returned no error.
use opcua_exporter.Prelude.{String, ◌≡◌, refl}
use opcua_exporter.Errors.{Result, ok, err, ◌>>=◌, wrapping}

pub >>=-eq-ok :
    {A B : Type 0} (call : Result A) (next : A → Result B) {last : B}
    → (call >>= next) ≡ ok last
    → (value : A) × (call ≡ ok value) × (next value ≡ ok last)
>>=-eq-ok (err failure) next h = cc
>>=-eq-ok (ok value) next h = (value, refl, h)

pub wrapping-eq-ok :
    {A : Type 0} (s : String) (m : Result A) {a : A} → wrapping s m ≡ ok a → m ≡ ok a
wrapping-eq-ok s (ok a) h = h
wrapping-eq-ok s (err e) h = cc
