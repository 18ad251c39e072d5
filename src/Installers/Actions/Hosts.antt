-- ===== src/Installers/Actions/Hosts.antt =====
-- The hosts that the command line of `parallel-ssh` names.
use benchhelpers.Prelude.{
  >>=-eq-ok, All, Bool, Bool-cases, List, Option, String, [], ap, err, has_char, inl, inr, is_space,
  join, map, none, not, ok, refl, some, str_eq, sym, words, ◌&&◌, ◌<>◌, ◌∙◌, ◌∷◌, ◌≡◌,
}
use benchhelpers.Prelude.Words.{
  NoSpace, IsWord, NoSpace-append, IsWord-NoSpace, IsWord-append, words-join, words-IsWord,
}
use benchhelpers.Installers.Actions.{with_user}
use benchhelpers.Installers.Actions.Pssh.{
  PsshAction, no_hosts, select_hosts, some_hosts, init, get_hosts,
}

-- The members of a set that is made of a list are the list's.
abbrev pub IsSubset : (List String → List String) → Type 1
IsSubset as_set = (P : String → Type 0) (xs : List String) → All P xs → All P (as_set xs)

-- A user's name without white space, if there is one.
abbrev pub IsUser : Option String → Type 0
IsUser none = Unit
IsUser (some user) = NoSpace user

with_user-IsWord :
    (user : Option String)
    → IsUser user
    → (host : String) → IsWord host
    → IsWord (with_user user host)
unfolding with_user is_space
with_user-IsWord none h host k = k
with_user-IsWord (some String.[]) h host k = k
with_user-IsWord (some (String.◌∷◌ c user)) h host k =
    elim (Bool-cases (not (str_eq (String.◌∷◌ c user) "") && not (has_char 64 host))) [
      | inl added ↦
          let after = NoSpace-append "@" host (refl, tt) (IsWord-NoSpace host k) in
          rw added (IsWord-append (String.◌∷◌ c user) ("@" <> host) h after)
      | inr kept ↦ rw kept k
    ]

some_hosts_lem :
    (hosts : List String) {selected : List String}
    → some_hosts hosts ≡ ok selected
    → selected ≡ hosts
some_hosts_lem [] h = cc
some_hosts_lem (host ∷ more) h = cc

All-map_words :
    (user : Option String)
    → IsUser user
    → (hosts : List String) → All IsWord hosts
    → All IsWord (map (with_user user) hosts)
All-map_words user h [] k = tt
All-map_words user h (host ∷ more) (k, rest) =
    (with_user-IsWord user h host k, All-map_words user h more rest)

-- An action made with `--hosts`, whatever its other options, names to `parallel-ssh` a line that
-- splits at its white space into the set of these hosts, each with the user of `--ssh-user` where that
-- has no white space.
pub get_hosts-words :
    (as_set : List String → List String) (text : String) (configured : List String)
    (dry_run fail_on_error : Bool) (username ssh_user : Option String) {action : PsshAction}
    → IsSubset as_set
    → IsUser ssh_user
    → init (some text) configured dry_run fail_on_error username ssh_user ≡ ok action
    → (line : String) × (get_hosts as_set action no_hosts ≡ ok line)
      × (words line ≡ as_set (map (with_user ssh_user) (words text)))
unfolding get_hosts init select_hosts
get_hosts-words as_set text configured dry_run fail_on_error username ssh_user {action} subset user
      h =
    let (selected, found, made) = >>=-eq-ok (some_hosts (words text)) _ h in
    let same = some_hosts_lem (words text) found in
    let hosts : action.pssh_hosts ≡ map (with_user ssh_user) (words text) =
      ap (λ r. elim r [ err e ↦ [] | ok a ↦ a.pssh_hosts ]) (sym made)
      ∙ ap (map (with_user ssh_user)) same in
    let each =
      subset IsWord (map (with_user ssh_user) (words text))
        (All-map_words ssh_user user (words text) (words-IsWord text)) in
    (join " " (as_set action.pssh_hosts), refl, rw hosts (words-join _ each))
