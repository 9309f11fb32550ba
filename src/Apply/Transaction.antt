-- ===== src/Apply/Transaction.antt =====
-- apply/transaction.go: the record of a change in flight.
use Prim.Native.String.{len}
use text.Mathlib.Text.{◌==◌ as str_eq}
use fpm_tune.Common.{
  String, Bool, true, false, not, ◌&&◌, ◌||◌, Option, none, some, if◌then◌else◌, ◌==◌,
}
use fpm_tune.Apply.Disk.{Transaction, RecordFile, absent, unreadable, malformed, holds, Paths}

abbrev pub phase_written : String
phase_written = "written"

abbrev pub phase_signalled : String
phase_signalled = "signalled"

abbrev pub is_same_bool : Bool → Bool → Bool
is_same_bool true b = b
is_same_bool false b = not b

pub data Problem : Type 0 where
  cannot_read not_json other_dir other_path existed_mismatch not_bare malformed_hash unknown_phase :
      Problem

pub data Found : Type 0 where
  nothing : Found
  unusable : Problem → Found
  found : Transaction → Found

module _ (p : Paths) where
  -- DropInPath
  unfoldable pub drop_in_path : String → String
  drop_in_path dir = p.join dir "zz-fpm-tune.conf"

  unfoldable pub is_bare : String → Bool
  is_bare name =
      str_eq name ""
      || (str_eq name (p.base name) && (not (str_eq name ".") && not (str_eq name "..")))

  -- The first fault of a record, in the order of the checks.
  unfoldable pub valid : (drop_in_dir : String) → Transaction → Option Problem
  valid drop_in_dir t =
      let dir = p.clean drop_in_dir in
      if not (str_eq (p.clean t.drop_in_dir) dir)
      then some other_dir
      else (if not (str_eq (p.clean t.path) (drop_in_path dir))
          then some other_path
          else (if not (is_same_bool t.existed (not (str_eq t.saved "")))
              then some existed_mismatch
              else (if not (is_bare t.saved)
                  then some not_bare
                  else (if not (len t.wrote == 64) || not (p.is_hex t.wrote)
                      then some malformed_hash
                      else (if not (str_eq t.phase phase_written)
                            && not (str_eq t.phase phase_signalled)
                          then some unknown_phase
                          else none)))))

  unfoldable pub checked : Transaction → Option Problem → Found
  checked t none = found t
  checked t (some e) = unusable e

  unfoldable pub read_transaction : (drop_in_dir : String) → RecordFile → Found
  read_transaction dir absent = nothing
  read_transaction dir unreadable = unusable cannot_read
  read_transaction dir malformed = unusable not_json
  read_transaction dir (holds t) = checked t (valid dir t)

  -- hashOf: a file that is not there has the empty hash, and so has one that cannot be read.
  unfoldable pub hash_of : (read_fails : Bool) → Option String → String
  hash_of read_fails none = ""
  hash_of read_fails (some content) = if read_fails then "" else p.hash content

  -- The hash of the live file is the one that the record has.
  unfoldable pub landed : (read_fails : Bool) → Transaction → Option String → Bool
  unfolding hash_of
  landed read_fails t live = str_eq (hash_of read_fails live) t.wrote

  -- PendingRepair
  unfoldable pub pending_repair :
      (drop_in_dir : String) → RecordFile → Option String × Option Problem
  pending_repair dir file = elim (read_transaction dir file) [
    | nothing ↦ (none, none)
    | unusable e ↦ (none, some e)
    | found t ↦ (some t.path, none)
  ]
