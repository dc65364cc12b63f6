-- ===== src/Cli/Keys.antt =====
-- packages/cli/src/keys.ts: the file of the signing key, and the commands of index.ts that use it.
pub mod Signs
mod Tests
use salve_push.Base.{
  leb, ◌==◌, ◌&&◌, ◌||◌, ℕ, Bool, true, false, Option, none, some, List, [], ◌∷◌, Bytes, codes,
  bytes_eq, if◌then◌else◌,
}
use salve_push.Protocol.{Runtime, SigningKeyPair, signing_key_pair}
use salve_push.Cli.{ReleaseParams, UploadRequest, publish_release}

-- A file and its mode, and the files by their paths.
pub record KeyFile : Type 0 where
  pub contents : Bytes
  pub mode : ℕ

abbrev pub Files : Type 0
Files = Bytes → Option KeyFile

abbrev pub with_file : Bytes → KeyFile → Files → Files
with_file path file files other = if bytes_eq other path then some file else files other

-- What happens at a `writeFile`: it works, fails without an effect, or leaves a part of the text.
pub data WriteEvent : Type 0 where
  writes write_fails : WriteEvent
  write_stops : Bytes → WriteEvent

pub record Faults : Type 0 where
  pub read : Bool
  pub mkdir : Bool
  pub write : WriteEvent

pub data KeyError : Type 0 where
  key_exists no_key failed : KeyError

pub data Answer (A : Type 0) : Type 0 where
  ok : A → Answer A
  err : KeyError → Answer A

pub record GeneratedKey : Type 0 where
  pub public_key : Bytes
  pub key_path : Bytes

-- `String.prototype.trim`: white space and line ends are cut off at both ends.
abbrev pub is_space : ℕ → Bool
is_space c =
    (leb 9 c && leb c 13)
    || (c == 32)
    || (c == 160)
    || (c == 5760)
    || (leb 8192 c && leb c 8202)
    || (c == 8232)
    || (c == 8233)
    || (c == 8239)
    || (c == 8287)
    || (c == 12288)
    || (c == 65279)

abbrev pub trim_start : Bytes → Bytes
trim_start [] = []
trim_start (c ∷ rest) = let others = trim_start rest in if is_space c then others else c ∷ rest

abbrev pub with_char : ℕ → Bytes → Bytes
with_char c [] = if is_space c then [] else c ∷ []
with_char c (d ∷ rest) = c ∷ (d ∷ rest)

abbrev pub trim_end : Bytes → Bytes
trim_end [] = []
trim_end (c ∷ rest) = with_char c (trim_end rest)

unfoldable pub trim : Bytes → Bytes
trim text = trim_start (trim_end text)

-- `path.join` of Node.js is a parameter.
module _ (join : List Bytes → Bytes) where
  abbrev pub resolve_signing_key_path : Bytes → Bytes
  resolve_signing_key_path cwd = join (cwd ∷ codes ".salve-push" ∷ codes "signing.key" ∷ [])

  -- The contents of a file, or `none` where the read fails for any reason.
  abbrev pub read_contents : Bool → Option KeyFile → Option Bytes
  read_contents true file = none
  read_contents false none = none
  read_contents false (some file) = some file.contents

  module _ (R : Runtime) where
    -- A file that is there keeps its mode. The mode of a new one is taken as the process has no mask.
    abbrev pub mode_of : Option KeyFile → ℕ
    mode_of none = 384
    mode_of (some file) = file.mode

    abbrev pub written : Bytes → Bytes → Files → Files
    written path text files =
        with_file path (record { contents = text; mode = mode_of (files path) }) files

    abbrev pub write_key : WriteEvent → Bytes → SigningKeyPair → Files → Answer GeneratedKey × Files
    write_key writes path pair files = (
      ok (record { public_key = pair.public_key; key_path = path }),
      written path pair.private_key files,
    )
    write_key write_fails path pair files = (err failed, files)
    write_key (write_stops part) path pair files = (err failed, written path part files)

    abbrev pub with_pair :
        Faults → Bytes → Option SigningKeyPair → Files → Answer GeneratedKey × Files
    with_pair x path none files = (err failed, files)
    with_pair x path (some pair) files =
        if x.mkdir then (err failed, files) else write_key x.write path pair files

    abbrev pub unless_there :
        Option Bytes → Faults → Bytes → Bytes → Files → Answer GeneratedKey × Files
    unless_there none x private_key path files =
        with_pair x path (signing_key_pair R private_key) files
    unless_there (some contents) x private_key path files = (err key_exists, files)

    -- `generateAndWriteSigningKey`, with the private key that is drawn.
    unfoldable pub generate_and_write_signing_key :
        Faults → Bytes → Bool → Bytes → Files → Answer GeneratedKey × Files
    generate_and_write_signing_key x private_key force cwd files =
        let path = resolve_signing_key_path cwd in
        if force
        then with_pair x path (signing_key_pair R private_key) files
        else unless_there (read_contents x.read (files path)) x private_key path files

  abbrev pub trimmed : Option Bytes → Answer Bytes
  trimmed none = err no_key
  trimmed (some contents) = ok (trim contents)

  -- `loadSigningPrivateKey`; an empty variable counts as none.
  unfoldable pub load_signing_private_key : Bool → Bytes → Option Bytes → Files → Answer Bytes
  load_signing_private_key read_fails cwd (some (c ∷ rest)) files = ok (c ∷ rest)
  load_signing_private_key read_fails cwd (some []) files =
      trimmed (read_contents read_fails (files (resolve_signing_key_path cwd)))
  load_signing_private_key read_fails cwd none files =
      trimmed (read_contents read_fails (files (resolve_signing_key_path cwd)))

  module _ (R : Runtime) where
    abbrev pub signed_with :
        (Bytes → Option Bytes) → ReleaseParams → Answer Bytes → Option UploadRequest
    signed_with read_file params (err e) = none
    signed_with read_file params (ok key) =
        publish_release R read_file (record params { private_key = key })

    -- The command `release` up to the request that it sends; `params` has the options.
    unfoldable pub release_command :
        Bool
        → Bytes
        → Option Bytes
        → (Bytes → Option Bytes)
        → ReleaseParams
        → Files
        → Option UploadRequest
    release_command read_fails cwd variable read_file params files =
        signed_with read_file params (load_signing_private_key read_fails cwd variable files)
