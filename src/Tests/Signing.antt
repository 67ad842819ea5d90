-- ===== src/Tests/Signing.antt =====
-- src/signtool.cpp with the tools of Tests/Tools.antt.
use kad.Common.{
  ◌≡◌, ◌≢◌, refl, ap, arith, true, some, none, [], ◌∷◌, ◌++◌, if◌then◌else◌, replicate,
}
use kad.Common.{
  ◌∙◌, name_ne, write_file_self, write_file_ne, get_or, write_file, Bool, String, Bytes, Files,
  name_eq,
}
use kad.Signing.{
  run, Outcome, decode_public, decode_private, check_file, returned, stopped, bad_hash,
  bad_public_key, verify_file,
}
use kad.Signing.Accepted.{Verified, verify_file_accepted, verify_file_stopped}
use kad.Signing.RoundTrip.{header_of, signs, unpack-sign, altered_refused, sign_onto_itself}
use kad.Tests.Tools.{toy, toy-Laws, toy-KeyPair}

abbrev input : Bytes
input = 9 ∷ 8 ∷ 7 ∷ []

abbrev key_files : Files
key_files name =
    if name_eq "master_key.priv" name
    then some (5 ∷ [])
    else if name_eq "master_key.pub" name
    then some (5 ∷ [])
    else if name_eq "in" name
    then some input
    else none

abbrev seed : Bytes
seed = replicate 16 3

private_read : decode_private toy key_files "master_key.priv" ≡ some 5
unfolding decode_private
private_read = refl

public_read : decode_public toy key_files "master_key.pub" ≡ some 5
unfolding decode_public
public_read = refl

out_ne_key : ◌≢◌ {A = String} "out" "master_key.pub"
out_ne_key = name_ne "out" "master_key.pub" refl

out_ne_in : ◌≢◌ {A = String} "out" "in"
out_ne_in = name_ne "out" "in" refl

abbrev anywhere : String → Bool
anywhere name = true

abbrev stamp : Bytes
stamp = 1 ∷ []

sum_differs : toy.hex (toy.sha256 input) ≢ toy.hex (toy.sha256 [])
sum_differs e = absurd (omega (arith, ap (λ (b : Bytes). get_or b 1 0) e))

abbrev signed : Files
signed = (run toy anywhere stamp seed 4 ("-s" ∷ "in" ∷ "out" ∷ []) key_files).1

unpack-sign_example :
    let r = run toy anywhere stamp seed 4 ("-s" ∷ "in" ∷ "out" ∷ []) key_files in
    let r' = run toy anywhere stamp seed 4 ("-u" ∷ "out" ∷ "back" ∷ []) r.1 in
    (r.0 ≡ returned true) × (r'.0 ≡ returned true) × (r'.1 "back" ≡ some input)
unpack-sign_example =
    unpack-sign toy toy-Laws 5 5 toy-KeyPair stamp seed 4 refl anywhere key_files "in" "out" input
      refl refl private_read public_read out_ne_key "back" out_ne_in refl

-- Unpacking what was signed, by the name of the operation.
accepted_run : (verify_file toy anywhere "out" (some "back") signed).0 ≡ returned true
unfolding run
accepted_run =
    (unpack-sign toy toy-Laws 5 5 toy-KeyPair stamp seed 4 refl anywhere key_files "in" "out" input
      refl refl private_read public_read out_ne_key "back" out_ne_in refl).1

verify_file_accepted_example :
    Verified toy "out" (some "back") signed (verify_file toy anywhere "out" (some "back") signed).1
verify_file_accepted_example =
    verify_file_accepted toy signed anywhere "out" (some "back") true accepted_run

no_key : Files
no_key name = none

stopped_run : (verify_file toy anywhere "out" (some "back") no_key).0 ≡ stopped bad_public_key
unfolding verify_file check_file decode_public no_key
stopped_run = refl

verify_file_stopped_example : (verify_file toy anywhere "out" (some "back") no_key).1 ≡ no_key
verify_file_stopped_example =
    verify_file_stopped toy no_key anywhere "out" (some "back") bad_public_key stopped_run

sign_onto_itself_example :
    let r = run toy anywhere stamp seed 4 ("-s" ∷ "in" ∷ "in" ∷ []) key_files in
    (r.0 ≡ stopped bad_hash) × (r.1 "in" ≡ some (header_of toy 5 stamp seed 4 input ++ []))
sign_onto_itself_example =
    sign_onto_itself toy toy-Laws 5 5 toy-KeyPair stamp seed 4 refl anywhere key_files "in" "in"
      input refl refl private_read public_read (name_ne "in" "master_key.pub" refl) refl sum_differs

abbrev altered : Files
altered = write_file "out" (header_of toy 5 stamp seed 4 input ++ []) key_files

stored : signed "out" ≡ some (header_of toy 5 stamp seed 4 input ++ input)
stored =
    ap (λ (r : Outcome Bool × Files). r.1 "out")
      (signs toy toy-Laws 5 5 toy-KeyPair stamp seed 4 refl anywhere key_files "in" "out" input refl
        refl private_read public_read out_ne_key out_ne_in)
    ∙ write_file_self "out" _ _

altered_refused_example :
    run toy anywhere stamp seed 4 ("-u" ∷ "out" ∷ "back" ∷ []) altered ≡ (stopped bad_hash, altered)
altered_refused_example =
    altered_refused toy toy-Laws 5 5 toy-KeyPair stamp seed 4 refl anywhere key_files "in" "out"
      input refl refl private_read public_read out_ne_key (header_of toy 5 stamp seed 4 input) []
      "back" altered out_ne_in stored (write_file_self "out" _ key_files)
      (write_file_ne "out" "master_key.pub" _ key_files out_ne_key) sum_differs
