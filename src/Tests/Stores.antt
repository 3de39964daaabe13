-- ===== src/Tests/Stores.antt =====
-- The theorems of the evidence store at concrete inputs.
use yamazaki_incubator.Base.{◌≡◌, refl, true, some, [], ◌∷◌, String, string_eq, if◌then◌else◌, ◌==◌}
use yamazaki_incubator.Base.Result.{ok}
use yamazaki_incubator.Json.{Json, Fields, object, done, field, text, Platform}
use yamazaki_incubator.Base.Text.{join}
use yamazaki_incubator.EvidenceStore.{
  resolve, Codec, Directory, file, write, read, entry_of, owner_file,
}
use yamazaki_incubator.EvidenceStore.Locator.{is_file_name, is_file_name_iff, parts, name}
use yamazaki_incubator.EvidenceStore.Register.{StoreLaws, both_empty}
use yamazaki_incubator.EvidenceStore.Laws.{run, run_register, run-refines, write-read}
use yamazaki_incubator.EvidenceStore.Kept.{entry_of-write}

-- A text is the first key of a dict, and the digest tells only the empty dict from others.
abbrev small : Platform
small = record {
  content_digest = λ v. elim v [ object done ↦ "0" | _ ↦ "1" ];
  bundle_digest = λ _. "2";
  uuid5 = λ _. 1;
  uuid_text = λ _. "c0ffee";
  isoformat = λ _. "noon";
}

abbrev codec : Codec
codec = record {
  dumps = λ p. elim p [ done ↦ "{}" | field k v rest ↦ "{:}" ];
  loads = λ s. if s == "{}" then ok (object done) else ok (object (field "k" Json.null done));
}

is_name : is_file_name "c0ffee.json" ≡ true
is_name = (is_file_name_iff "c0ffee.json").1 (refl, λ e. cc e, λ e. cc e)

small-StoreLaws : StoreLaws small codec
unfolding join
small-StoreLaws = record {
  loaded = λ p.
      elim p
        as (λ p.
          (q : Fields) × (codec.loads (codec.dumps p) ≡ ok (object q))
          × (small.content_digest (object q) ≡ small.content_digest (object p))) [
            | done ↦ (done, refl, refl)
            | field k v rest ↦ (field "k" Json.null done, refl, refl)
          ];
  named = λ id. is_name;
}

abbrev full : Fields
full = field "duration_ms" (text "7") done

run-refines_example :
    run small codec ((1, full) ∷ (1, done) ∷ (1, full) ∷ []) []
    ≡ run_register small codec ((1, full) ∷ (1, done) ∷ (1, full) ∷ []) []
run-refines_example =
    run-refines small codec small-StoreLaws ((1, full) ∷ (1, done) ∷ (1, full) ∷ [])

written : (write small codec 1 full []).0 ≡ ok ("c0ffee.json", "1")
unfolding write resolve is_file_name join parts name entry_of
written = refl

write-read_example :
    (q : Fields) × (read small codec "c0ffee.json" (write small codec 1 full []).1
      ≡ (ok q, (write small codec 1 full []).1))
    × (small.content_digest (object q) ≡ "1")
    × ("1" ≡ small.content_digest (object full))
write-read_example =
    write-read small codec small-StoreLaws 1 full [] [] "c0ffee.json" "1" both_empty written

abbrev holding : Directory
holding = ("c0ffee.json", file owner_file "{}") ∷ []

held : entry_of "c0ffee.json" holding ≡ some (file owner_file "{}")
unfolding entry_of
held = refl

entry_of-write_example :
    entry_of "c0ffee.json" (write small codec 1 full holding).1 ≡ some (file owner_file "{}")
entry_of-write_example =
    entry_of-write small codec 1 full holding "c0ffee.json" (file owner_file "{}") held

abbrev outside : String
outside = "../key.json"
