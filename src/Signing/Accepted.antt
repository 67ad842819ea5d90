-- ===== src/Signing/Accepted.antt =====
-- What a file is that `VerifyFile` of src/signtool.cpp accepts.
use kad.Common.{
  ℕ, ◌+◌, ◌≤◌, ◌≡◌, refl, sym, ap, ap₂, subst, ◌∙◌, arith, Bool, true, false, Option, none, some,
  List, ◌&&◌, leb, ◌==◌,
}
use kad.Common.{
  take, drop, String, Bytes, Files, codes, bytes_eq, bytes_eq-eq, write_file, Bool-cases, inl, inr,
}
use kad.Message.Format.{Object, Objects, raw, mapping, nil, boolean, positive, negative, array}
use kad.Signing.{
  Tools, Outcome, returned, stopped, Stop, ◌>>=◌, ◌>>◌, or_stop, need, bad_hash, cannot_open,
  unpack_to, is_map, as_string, as_map, field,
}
use kad.Signing.{fields_of, check_bytes, check_file, decode_public, verify_file}

-- `bytes` is a descriptor, its signature by the master key, and data with the descriptor's checksum.
pub record IsSigned (t : Tools) (key : t.Public) (bytes data' : Bytes) : Type 0 where
  pub descr : Objects
  pub descr_end : ℕ
  pub signature : Bytes
  pub fields : List (Bytes × Object)
  pub descr_read : t.unpack bytes ≡ some (mapping descr, descr_end)
  pub descr_size : 128 ≤ descr_end
  pub signature_read : t.unpack (drop descr_end bytes) ≡ some (raw signature, 515)
  pub verified : t.verify key (take descr_end bytes) signature ≡ true
  pub fields_read : as_map descr ≡ some fields
  pub sum : field (codes "sha256") fields nil ≡ raw (t.hex (t.sha256 data'))
  pub rest : data' ≡ drop (descr_end + 515) bytes

or_stop-eq-returned {ℓ κ} :
    {A : Type ℓ} {B : Type κ} (o : Option A) (e : Stop) (f : A → Outcome B) {b : B}
    → (or_stop o e >>= f) ≡ returned b
    → (a : A) × (o ≡ some a) × (f a ≡ returned b)
or_stop-eq-returned none e f h = cc
or_stop-eq-returned (some a) e f h = (a, refl, h)

returned-eq {ℓ} : {A : Type ℓ} {a b : A} → ◌≡◌ {A = Outcome A} (returned a) (returned b) → a ≡ b
returned-eq h = cc

stopped_ne : (b : Bool) → ◌≡◌ {A = Outcome Bool} (stopped cannot_open) (returned b) → ⊥
stopped_ne b h = cc

need-eq-returned {ℓ} :
    {B : Type ℓ} (c : Bool) (e : Stop) (k : Outcome B) {b : B}
    → (need c e >> k) ≡ returned b
    → (c ≡ true) × (k ≡ returned b)
need-eq-returned true e k h = (refl, h)
need-eq-returned false e k h = cc

as_string-eq-some : (o : Object) (b : Bytes) → as_string o ≡ some b → o ≡ raw b
as_string-eq-some (raw c) b h = cc
as_string-eq-some nil b h = cc
as_string-eq-some (boolean c) b h = cc
as_string-eq-some (positive c) b h = cc
as_string-eq-some (negative c) b h = cc
as_string-eq-some (array c) b h = cc
as_string-eq-some (mapping c) b h = cc

map_of : (o : Object) → is_map o ≡ true → (os : Objects) × (o ≡ mapping os)
map_of (mapping os) h = (os, refl)
map_of (raw c) h = cc
map_of nil h = cc
map_of (boolean c) h = cc
map_of (positive c) h = cc
map_of (negative c) h = cc
map_of (array c) h = cc

format_read :
    (n m : ℕ) (b : Bool)
    → (leb 128 n && n + m == n + 515 && b) ≡ true
    → (128 ≤ n) × (m ≡ 515) × (b ≡ true)
format_read n m b h = (ground arith, ground arith, ground arith)

module _ (t : Tools) (key : t.Public) (bytes data' : Bytes) where
  signed_of :
      (d s : Object) (n m : ℕ) (signature : Bytes) (fields : List (Bytes × Object)) (sum : Bytes)
      → t.unpack bytes ≡ some (d, n)
      → t.unpack (drop n bytes) ≡ some (s, m)
      → (leb 128 n && n + m == n + 515 && is_map d) ≡ true
      → as_string s ≡ some signature
      → t.verify key (take n bytes) signature ≡ true
      → fields_of d ≡ some fields
      → as_string (field (codes "sha256") fields nil) ≡ some sum
      → bytes_eq sum (t.hex (t.sha256 (drop (n + m) bytes))) ≡ true
      → drop (n + m) bytes ≡ data'
      → IsSigned t key bytes data'
  signed_of d s n m signature fields sum d_read s_read format s_raw good f_read sum_read hashed e =
      let (size, m_eq, is) = format_read n m (is_map d) format in
      let (os, d_eq) = map_of d is in
      let s_eq = as_string-eq-some s signature s_raw in
      let sum_eq = bytes_eq-eq sum (t.hex (t.sha256 (drop (n + m) bytes))) hashed in
      let checked : field (codes "sha256") fields nil ≡ raw (t.hex (t.sha256 data')) =
        as_string-eq-some (field (codes "sha256") fields nil) sum sum_read
        ∙ ap raw (sum_eq ∙ ap (λ (b : Bytes). t.hex (t.sha256 b)) e) in
      let mapped : as_map os ≡ some fields =
        subst (λ (o : Object). fields_of o ≡ some fields) d_eq f_read in
      record {
        descr = os;
        descr_end = n;
        signature = signature;
        fields = fields;
        descr_read = d_read ∙ ap (λ (o : Object). some (o, n)) d_eq;
        descr_size = size;
        signature_read = s_read ∙ ap₂ (λ (o : Object) (k : ℕ). some (o, k)) s_eq m_eq;
        verified = good;
        fields_read = mapped;
        sum = checked;
        rest = sym e ∙ ap (λ (k : ℕ). drop (n + k) bytes) m_eq;
      }

  pub check_bytes-IsSigned : check_bytes t key bytes ≡ returned data' → IsSigned t key bytes data'
  unfolding check_bytes
  check_bytes-IsSigned h =
      let (d, d_read, h1) = or_stop-eq-returned (t.unpack bytes) _ _ h in
      let (s, s_read, h2) = or_stop-eq-returned (t.unpack (drop d.1 bytes)) _ _ h1 in
      let (format, h3) = need-eq-returned _ _ _ h2 in
      let (signature, s_raw, h4) = or_stop-eq-returned (as_string s.0) _ _ h3 in
      let (good, h5) = need-eq-returned _ _ _ h4 in
      let (fields, f_read, h6) = or_stop-eq-returned (fields_of d.0) _ _ h5 in
      let (sum, sum_read, h7) =
        or_stop-eq-returned (as_string (field (codes "sha256") fields nil)) _ _ h6 in
      let (hashed, e) =
        need-eq-returned (bytes_eq sum (t.hex (t.sha256 (drop (d.1 + s.1) bytes)))) bad_hash
          (returned (drop (d.1 + s.1) bytes)) h7 in
      let same : drop (d.1 + s.1) bytes ≡ data' = returned-eq e in
      signed_of d.0 s.0 d.1 s.1 signature fields sum d_read s_read format s_raw good f_read sum_read
        hashed same

-- What a verification that ends well has seen, and leaves.
abbrev pub written : Option String → Bytes → Files → Files
written none data' files = files
written (some out) data' files = write_file out data' files

pub record Verified (t : Tools) (fn_in : String) (fn_out : Option String) (files files' : Files)
    : Type 0 where
  pub key : t.Public
  pub bytes : Bytes
  pub data' : Bytes
  pub key_read : decode_public t files "master_key.pub" ≡ some key
  pub bytes_read : files fn_in ≡ some bytes
  pub signed : IsSigned t key bytes data'
  pub left : files' ≡ written fn_out data' files

module _ (t : Tools) (files : Files) where
  check_file-eq-returned :
      (fn_in : String) (data' : Bytes)
      → check_file t files fn_in ≡ returned data'
      → (key : t.Public) × (bytes : Bytes) × (decode_public t files "master_key.pub" ≡ some key)
        × (files fn_in ≡ some bytes)
        × IsSigned t key bytes data'
  unfolding check_file
  check_file-eq-returned fn_in data' h =
      let (key, key_read, h1) =
        or_stop-eq-returned (decode_public t files "master_key.pub") _ _ h in
      let (bytes, bytes_read, h2) = or_stop-eq-returned (files fn_in) _ _ h1 in
      (key, bytes, key_read, bytes_read, check_bytes-IsSigned t key bytes data' h2)

  unpack_to_accepted :
      (opens : String → Bool) (r : Outcome Bytes) (fn_out : Option String) (b : Bool)
      → (unpack_to t opens r fn_out files).0 ≡ returned b
      → (data' : Bytes) × (r ≡ returned data')
        × ((unpack_to t opens r fn_out files).1 ≡ written fn_out data' files)
  unpack_to_accepted opens (stopped e) fn_out b h = cc
  unpack_to_accepted opens (returned data') none b h = (data', refl, refl)
  unpack_to_accepted opens (returned data') (some out) b h = elim (Bool-cases (opens out)) [
    | inl can ↦ (data', refl, rw can refl)
    | inr cannot ↦ absurd (stopped_ne b (rw cannot at h))
  ]

  unpack_to_stopped :
      (opens : String → Bool) (r : Outcome Bytes) (fn_out : Option String) (e : Stop)
      → (unpack_to t opens r fn_out files).0 ≡ stopped e
      → (unpack_to t opens r fn_out files).1 ≡ files
  unpack_to_stopped opens (stopped d) fn_out e h = refl
  unpack_to_stopped opens (returned data') none e h = cc
  unpack_to_stopped opens (returned data') (some out) e h = ground arith

  -- If `VerifyFile` returns, with whatever result, then `master_key.pub` gave a valid key, the
  -- input could be read and is a descriptor, a map of at least 128 bytes, then a signature in 515
  -- bytes that the key verifies for the descriptor, then data whose checksum in hexadecimal is the
  -- field `sha256` of the descriptor; and exactly these data are written to the output, if there
  -- is one, and nothing else.
  pub verify_file_accepted :
      (opens : String → Bool) (fn_in : String) (fn_out : Option String) (b : Bool)
      → (verify_file t opens fn_in fn_out files).0 ≡ returned b
      → Verified t fn_in fn_out files (verify_file t opens fn_in fn_out files).1
  unfolding verify_file
  verify_file_accepted opens fn_in fn_out b h =
      let (data', checked, left) = unpack_to_accepted opens (check_file t files fn_in) fn_out b h in
      let (key, bytes, key_read, bytes_read, signed) = check_file-eq-returned fn_in data' checked in
      record {
        key = key;
        bytes = bytes;
        data' = data';
        key_read = key_read;
        bytes_read = bytes_read;
        signed = signed;
        left = left;
      }

  -- If `VerifyFile` stops at an error, it has written nothing.
  pub verify_file_stopped :
      (opens : String → Bool) (fn_in : String) (fn_out : Option String) (e : Stop)
      → (verify_file t opens fn_in fn_out files).0 ≡ stopped e
      → (verify_file t opens fn_in fn_out files).1 ≡ files
  unfolding verify_file
  verify_file_stopped opens fn_in fn_out e h =
      unpack_to_stopped opens (check_file t files fn_in) fn_out e h
