-- ===== src/Libbinder/Parcel/Calls.antt =====
-- Sequences of calls of the read functions of src/lib/binder/Parcel.cpp.
use cdroid.Libbinder.Parcel.Inside.{
  IsInside, Stays, read_int32-Stays, read_int64-Stays, read_string8-Stays, read-Stays,
  read_object-Stays,
}
use cdroid.Libbinder.Parcel.Reading.{read, read_string8, read_object, read_int32, read_int64}
use cdroid.Libbinder.Parcel.{Parcel, Access, done, ◌>>=◌}
use cdroid.Prelude.{All, List, [], ◌∷◌, Bool, ◌∙◌, ℕ, ◌≡◌, ◌≤◌, ◌-◌, ◌^◌, arith, refl}

-- A call of a read function; the bytes are those that are asked for.
pub data ReadCall : Type 0 where
  an_int32 an_int64 a_string8 : ReadCall
  some_bytes : ℕ → ReadCall
  an_object : Bool → ReadCall

unfoldable pub run_read : Parcel → ReadCall → Access Parcel
run_read p an_int32 = read_int32 p >>= λ r. done r.1
run_read p an_int64 = read_int64 p >>= λ r. done r.1
run_read p a_string8 = read_string8 p >>= λ r. done r.1
run_read p (some_bytes n) = read p n >>= λ r. done r.1
run_read p (an_object null_meta_data) = read_object p null_meta_data >>= λ r. done r.1

unfoldable pub run_reads : Parcel → List ReadCall → Access Parcel
run_reads p [] = done p
run_reads p (c ∷ cs) = run_read p c >>= λ q. run_reads q cs

-- Sizes that padding does not wrap.
abbrev pub IsReadCall : ReadCall → Type 0
IsReadCall (some_bytes n) = n ≤ 2 ^ 32 - 4
IsReadCall _ = Unit {0}

-- Where a read or several end.
abbrev Ends : Parcel → Access Parcel → Type 0
Ends p r =
    (q : Parcel) × (r ≡ done q)
    × IsInside q
    × (p.data_pos ≤ q.data_pos)
    × (q.bytes ≡ p.bytes)
    × (q.data_size ≡ p.data_size)

Stays-Ends :
    {A : Type 0} (p : Parcel) (r : Access (A × Parcel)) → Stays p r → Ends p (r >>= λ x. done x.1)
Stays-Ends p r (x, q, e, w, l, b, s) = (q, rw e refl, w, l, b, s)

run_read-Ends : (p : Parcel) (c : ReadCall) → IsInside p → IsReadCall c → Ends p (run_read p c)
unfolding run_read
run_read-Ends p an_int32 v f = Stays-Ends p (read_int32 p) (read_int32-Stays p v)
run_read-Ends p an_int64 v f = Stays-Ends p (read_int64 p) (read_int64-Stays p v)
run_read-Ends p a_string8 v f = Stays-Ends p (read_string8 p) (read_string8-Stays p v)
run_read-Ends p (some_bytes n) v f = Stays-Ends p (read p n) (read-Stays p v n f)
run_read-Ends p (an_object b) v f = Stays-Ends p (read_object p b) (read_object-Stays p v b)

-- Any sequence of calls of readInt32, readInt64, readString8, read with sizes up to 2^32 - 4, and
-- readObject, on a parcel of less than 2^31 bytes that stands within its data, whatever the bytes
-- and objects are, reads nothing outside the data's memory and leaves a parcel that stands within
-- its data, not before where it stood, with the same bytes.
pub run_reads-IsInside :
    (cs : List ReadCall) (p : Parcel)
    → IsInside p
    → All IsReadCall cs
    → (q : Parcel) × (run_reads p cs ≡ done q)
      × IsInside q
      × (p.data_pos ≤ q.data_pos)
      × (q.bytes ≡ p.bytes)
      × (q.data_size ≡ p.data_size)
unfolding run_reads
run_reads-IsInside [] p v f = (p, refl, v, omega arith, refl, refl)
run_reads-IsInside (c ∷ cs) p v f =
    let (q, e, w, l, b, s) = run_read-Ends p c v f.0 in
    let (t, e', w', l', b', s') = run_reads-IsInside cs q w f.1 in
    (t, rw e e', w', omega (arith, l, l'), b' ∙ b, s' ∙ s)
