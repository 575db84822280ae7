-- ===== src/Agent/Read/Exact.antt =====
-- Timestamps and integer fields come out of ReadDB as they went in.
use syncflux.Prelude.{ℕ, ℤ, ◌≡◌, refl, ap, ◌≤◌, String, some, quot-rem, FitsInt64, arith}
use syncflux.Go.Strconv.{format_int, format_nat, max_uint64}
use syncflux.Go.Strconv.RoundTrip.{parse_int-format_int, parse_uint-format_nat}
use syncflux.Go.Time.{second, unix}
use syncflux.Influx.{number, text, int64, uint64}
use syncflux.Agent.Read.{unix_nano2_time, timestamp_of, convert_number}

unix_nano2_time_lem : (t : ℤ) → unix_nano2_time t ≡ t
unfolding unix_nano2_time unix
unix_nano2_time_lem t = quot-rem t second

-- A timestamp in nanoseconds is read back exactly from each of the three forms that ReadDB takes: a
-- decimal json.Number, a decimal text and an int64; before 1970 too.
pub timestamp_exact :
    (t : ℤ)
    → FitsInt64 t
    → (timestamp_of (number (format_int t)) ≡ some t)
      × (timestamp_of (text (format_int t)) ≡ some t)
      × (timestamp_of (int64 t) ≡ some t)
unfolding timestamp_of
timestamp_exact t h =
    let whole = ap some (unix_nano2_time_lem t) in
    (rw (parse_int-format_int t h) whole, ground (arith, parse_int-format_int t h, whole), whole)

-- The decimal text of an int64 in a field that the schema calls `integer`, and of a uint64 in one that
-- it calls `unsigned`, becomes that number again, and a text in a `string` or `boolean` field
-- stays as it is.
pub convert_number_exact :
    (parse_float : String → ℕ) (z : ℤ) (n : ℕ) (vt : String)
    → FitsInt64 z
    → n ≤ max_uint64
    → (convert_number parse_float "integer" (format_int z) ≡ some (int64 z))
      × (convert_number parse_float "unsigned" (format_nat n) ≡ some (uint64 n))
      × (convert_number parse_float "string" vt ≡ some (text vt))
      × (convert_number parse_float "boolean" vt ≡ some (text vt))
unfolding convert_number
convert_number_exact parse_float z n vt h k = (
  ap (λ r. some (int64 r.0)) (parse_int-format_int z h),
  ap (λ r. some (uint64 r.0)) (parse_uint-format_nat n 64 k),
  refl,
  refl,
)
