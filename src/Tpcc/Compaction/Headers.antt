-- ===== src/Tpcc/Compaction/Headers.antt =====
-- The headers of the requests in tpcc/ydb/table_full_compact.py. `str.lower` and
-- `os.path.expanduser` are arguments, and a file is its text, if it is a file.
use benchhelpers.Prelude.{
  Bool, Option, Result, String, [], err, exit, false, if◌then◌else◌, none, not, ok, other_exception,
  some, str_eq, strip, true, ◌&&◌, ◌<>◌, ◌||◌, ◌∷◌,
}
use benchhelpers.Prelude.Dict.{Dict}

pub record Options : Type 0 where
  pub auth_mode : String
  pub token_file : String
  pub ydb_access_token_credentials : Option String
  pub ydb_anonymous_credentials : Option String

-- `x` as a condition: it is given and not empty
abbrev pub is_given : Option String → Bool
is_given none = false
is_given (some s) = not (str_eq s "")

abbrev pub is_file : Option String → Bool
is_file none = false
is_file (some text) = true

module _ (lower expanduser : String → String) (files : String → Option String) where
  abbrev pub is_disabled : Options → Bool
  is_disabled args =
      str_eq args.auth_mode ""
      || str_eq (lower args.auth_mode) "disabled"
      || is_given args.ydb_anonymous_credentials

  abbrev pub has_token_file : Options → Bool
  has_token_file args = not (str_eq args.token_file "") && is_file (files args.token_file)

  abbrev pub with_token : String → Option String → Result (Dict String)
  with_token auth_mode none = err (exit 1)
  with_token auth_mode (some text) = ok (("Authorization", auth_mode <> " " <> strip text) ∷ [])

  -- `token` is not bound where the access token of the environment is used, which raises
  -- `UnboundLocalError`.
  unfoldable pub viewer_headers : Options → Result (Dict String)
  viewer_headers args =
      if is_disabled args
      then ok []
      else if has_token_file args
      then with_token args.auth_mode (files (expanduser args.token_file))
      else if is_given args.ydb_access_token_credentials
      then err other_exception
      else ok []
