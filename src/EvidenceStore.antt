-- ===== src/EvidenceStore.antt =====
-- src/yamazaki/evidence_store.py: the local store of evidence. The state is the directory below the
-- root; nothing else writes to it while a call runs, and the disk does not fail. `json` is a
-- parameter.
pub mod Locator
pub mod Register
pub mod Laws
pub mod Kept
use yamazaki_incubator.Base.{
  ℕ, Bool, true, false, not, ◌&&◌, Option, none, some, List, [], ◌∷◌, String, ◌==◌, string_eq,
  if◌then◌else◌,
}
use yamazaki_incubator.Base.Result.{Result, ok, raised}
use yamazaki_incubator.Base.Exec.{Exec, pure, raise, lift, gets, modify, ◌>>=◌}
use yamazaki_incubator.Base.Text.{join}
use yamazaki_incubator.Json.{Json, Fields, object, Platform}
use yamazaki_incubator.Contracts.{Uuid}
use yamazaki_incubator.EvidenceStore.Locator.{is_file_name}

pub data Entry : Type 0 where
  file : (mode : ℕ) (content : String) → Entry
  symlink : Entry
  folder : Entry

abbrev pub Directory : Type 0
Directory = List (String × Entry)

-- What a path leads to.
pub data Node : Type 0 where
  directory : (mode : ℕ) → Directory → Node
  regular : Node
  link : (dangling : Bool) → Node
  nothing : Node

-- `json.dumps` with the options of the store, and `json.loads`.
pub record Codec : Type 0 where
  pub dumps : Fields → String
  pub loads : String → Result Json

-- 0o700 and 0o600
abbrev pub owner_directory : ℕ
owner_directory = 448

abbrev pub owner_file : ℕ
owner_file = 384

-- `LocalEvidenceStore(root)`: `mkdir` accepts a directory that is there, and nothing else.
unfoldable pub new_store : Node → Result Node
new_store (link true) = raised "FileExistsError"
new_store (link false) = raised "ValueError"
new_store regular = raised "FileExistsError"
new_store nothing = ok (directory owner_directory [])
new_store (directory mode entries) = ok (directory owner_directory entries)

unfoldable pub entry_of : (name : String) → Directory → Option Entry
entry_of name [] = none
entry_of name ((n, entry) ∷ rest) = if n == name then some entry else entry_of name rest

abbrev is_symlink : Option Entry → Bool
is_symlink (some symlink) = true
is_symlink _ = false

abbrev is_file : Option Entry → Bool
is_file (some (file _ _)) = true
is_file _ = false

-- `_resolve`: a single name below the resolved root has the root as its parent, so the last test has
-- nothing to refuse. The target is given as the entry that is there.
unfoldable pub resolve : (locator : String) → (must_exist : Bool) → Exec Directory (Option Entry)
resolve locator must_exist s =
    if not (is_file_name locator)
    then (raised "ValueError", s)
    else let target = entry_of locator s in
      if is_symlink target
      then (raised "ValueError", s)
      else if must_exist && not (is_file target)
      then (raised "FileNotFoundError", s)
      else (ok target, s)

-- `target.read_text()`
read_text : Option Entry → Result String
read_text none = raised "FileNotFoundError"
read_text (some (file mode content)) = ok content
read_text (some symlink) = raised "FileNotFoundError"
read_text (some folder) = raised "IsADirectoryError"

-- `f"{evidence_id}.json"`
abbrev pub locator_of : Platform → Uuid → String
locator_of P id = join (P.uuid_text id ∷ ".json" ∷ [])

require_object : Json → Result Fields
require_object (object fields) = ok fields
require_object _ = raised "ValueError"

module _ (P : Platform) (J : Codec) where
  -- The branch of `write` for a target that exists.
  check_existing : (locator digest : String) → Option Entry → Exec Directory (String × String)
  unfolding read_text
  check_existing locator digest target = do
    content ← lift (read_text target)
    existing ← lift (J.loads content)
    if P.content_digest existing == digest then pure (locator, digest) else raise "ValueError"

  -- `open` with O_EXCL, the write and `chmod`: the target does not exist.
  create : (locator content : String) → Directory → Directory
  create locator content s = (locator, file owner_file content) ∷ s

  store_at : (locator digest content : String) → Option Entry → Exec Directory (String × String)
  unfolding check_existing create
  store_at locator digest content none =
      modify (create locator content) >>= λ _. pure (locator, digest)
  store_at locator digest content (some symlink) = raise "ValueError"
  store_at locator digest content (some entry) = check_existing locator digest (some entry)

  unfoldable pub write :
      (evidence_id : Uuid) → (payload : Fields) → Exec Directory (String × String)
  unfolding store_at
  write evidence_id payload = do
    let locator = locator_of P evidence_id
    target ← resolve locator false
    store_at locator (P.content_digest (object payload)) (J.dumps payload) target

  unfoldable pub read : (locator : String) → Exec Directory Fields
  unfolding read_text require_object
  read locator = do
    target ← resolve locator true
    content ← lift (read_text target)
    value ← lift (J.loads content)
    lift (require_object value)
