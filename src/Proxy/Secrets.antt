-- ===== src/Proxy/Secrets.antt =====
-- The secrets that the plugin shares with the worker and the helper: the key of the catalog, the
-- admin token, and one nonce for each network. The files are their paths and texts; what `secrets`
-- draws is an argument, and a file that opens is written whole.
use neutron_local_services_p.Base.{
  String, ◌<>◌, ◌≡◌, refl, ◌∙◌, ap, Bool, ◌&&◌, ◌||◌, Option, none, some, ◌==◌, string_eq, nat_eq,
  leb, if◌then◌else◌, arith,
}
use mathlib.Core.Option.{none-ne-some}
use neutron_local_services_p.Base.Dict
use neutron_local_services_p.Base.Dict.{Dict}
use Prim.Native.Char.{Char, code}

abbrev pub proxy_state_dir : String
proxy_state_dir = "/var/lib/neutron-local-services/_proxy"

abbrev pub hmac_key_path : String
hmac_key_path = proxy_state_dir <> "/hmac.key"

abbrev pub admin_token_path : String
admin_token_path = proxy_state_dir <> "/admin.token"

abbrev pub nonce_path : String → String
nonce_path network_id = proxy_state_dir <> ("/nonces/" <> network_id)

-- The whitespace of ASCII.
abbrev pub is_space : Char → Bool
is_space c = (leb 9 (code c) && leb (code c) 13) || (leb 28 (code c) && leb (code c) 32)

unfoldable pub strip_left : String → String
strip_left String.[] = String.[]
strip_left (String.◌∷◌ c s) = let rest = strip_left s in if is_space c then rest else String.◌∷◌ c s

unfoldable pub strip_right : String → String
strip_right String.[] = String.[]
strip_right (String.◌∷◌ c s) =
    let rest = strip_right s in if rest == "" && is_space c then String.[] else String.◌∷◌ c rest

-- `text.strip()`
unfoldable pub strip : String → String
unfolding strip_left strip_right
strip s = strip_right (strip_left s)

unfoldable pub read_or_create_hmac_key : String → Dict String String → String × Dict String String
read_or_create_hmac_key drawn files = elim (Dict.lookup hmac_key_path files) [
  | some key ↦ (key, files)
  | none ↦ (drawn, Dict.insert hmac_key_path drawn files)
]

unfoldable pub read_or_create_admin_token :
    String → Dict String String → String × Dict String String
unfolding strip
read_or_create_admin_token drawn files = elim (Dict.lookup admin_token_path files) [
  | some text ↦ (strip text, files)
  | none ↦ (drawn, Dict.insert admin_token_path (drawn <> "\n") files)
]

-- With the temporary file: `none` where it exists, so that `os.open` raises.
abbrev pub create_nonce :
    String
    → String
    → Option String
    → Dict String String
    → Option (String × String) × Dict String String
create_nonce drawn path (some left_over) files = (none, files)
create_nonce drawn path none files = (
  some (path, drawn),
  Dict.insert path drawn (Dict.erase (path <> ".tmp") (Dict.insert (path <> ".tmp") drawn files)),
)

abbrev pub read_nonce :
    String
    → String
    → Option String
    → Dict String String
    → Option (String × String) × Dict String String
read_nonce drawn path (some text) files = (some (path, strip text), files)
read_nonce drawn path none files =
    create_nonce drawn path (Dict.lookup (path <> ".tmp") files) files

unfoldable pub ensure_nonce :
    String → String → Dict String String → Option (String × String) × Dict String String
unfolding strip
ensure_nonce drawn network_id files =
    read_nonce drawn (nonce_path network_id) (Dict.lookup (nonce_path network_id) files) files

unfoldable pub drop_nonce : String → Dict String String → Dict String String
drop_nonce network_id files = Dict.erase (nonce_path network_id) files

lookup_inserted :
    (path drawn : String) (files : Dict String String)
    → Dict.lookup path (Dict.insert path drawn files) ≡ some drawn
lookup_inserted path drawn files = Dict.lookup-insert path path drawn files ∙ ground arith

create_nonce_again :
    (drawn again path : String) (left_over : Option String) (files : Dict String String)
    (answer : String × String)
    → strip drawn ≡ drawn
    → (create_nonce drawn path left_over files).0 ≡ some answer
    → read_nonce again path
        (Dict.lookup path (create_nonce drawn path left_over files).1)
        (create_nonce drawn path left_over files).1
      ≡ (some answer, (create_nonce drawn path left_over files).1)
create_nonce_again drawn again path (some text) files answer plain h =
    absurd (none-ne-some answer h)
create_nonce_again drawn again path none files answer plain h =
    let cleared = Dict.erase (path <> ".tmp") (Dict.insert (path <> ".tmp") drawn files) in
    let written = Dict.insert path drawn cleared in
    ap (λ found. read_nonce again path found written) (lookup_inserted path drawn cleared)
    ∙ ap (λ nonce. (some (path, nonce), written)) plain
    ∙ ap (λ o. (o, written)) h

read_nonce_again :
    (drawn again path : String) (found : Option String) (files : Dict String String)
    (answer : String × String)
    → strip drawn ≡ drawn
    → Dict.lookup path files ≡ found
    → (read_nonce drawn path found files).0 ≡ some answer
    → read_nonce again path
        (Dict.lookup path (read_nonce drawn path found files).1)
        (read_nonce drawn path found files).1
      ≡ (some answer, (read_nonce drawn path found files).1)
read_nonce_again drawn again path (some text) files answer plain l h =
    ap (λ found. read_nonce again path found files) l ∙ ap (λ o. (o, files)) h
read_nonce_again drawn again path none files answer plain l h =
    create_nonce_again drawn again path (Dict.lookup (path <> ".tmp") files) files answer plain h

cleared_law :
    (path tmp drawn : String) (files : Dict String String)
    → Dict.lookup tmp
        (Dict.erase path (Dict.insert path drawn (Dict.erase tmp (Dict.insert tmp drawn files))))
      ≡ none
cleared_law path tmp drawn files = ground (
  arith,
  Dict.lookup-erase tmp path
      (Dict.insert path drawn (Dict.erase tmp (Dict.insert tmp drawn files))),
  Dict.lookup-insert tmp path drawn (Dict.erase tmp (Dict.insert tmp drawn files)),
  Dict.lookup-erase tmp tmp (Dict.insert tmp drawn files),
)

no_left_over :
    (drawn path : String) (found : Option String) (files : Dict String String)
    → Dict.lookup (path <> ".tmp") files ≡ none
    → Dict.lookup (path <> ".tmp") (Dict.erase path (read_nonce drawn path found files).1) ≡ none
no_left_over drawn path (some text) files e =
    ground (arith, Dict.lookup-erase (path <> ".tmp") path files)
no_left_over drawn path none files e =
    ap
      (λ left_over.
        Dict.lookup (path <> ".tmp") (Dict.erase path (create_nonce drawn path left_over files).1))
      e
    ∙ cleared_law path (path <> ".tmp") drawn files

lookup_erased :
    (path : String) (files : Dict String String) → Dict.lookup path (Dict.erase path files) ≡ none
lookup_erased path files = Dict.lookup-erase path path files ∙ ground arith

created_anew :
    (again path : String) (files : Dict String String)
    → Dict.lookup (path <> ".tmp") (Dict.erase path files) ≡ none
    → (read_nonce again path (Dict.lookup path (Dict.erase path files)) (Dict.erase path files)).0
      ≡ some (path, again)
created_anew again path files e =
    let dropped = Dict.erase path files in
    ap (λ found. (read_nonce again path found dropped).0) (lookup_erased path files)
    ∙ ap (λ left_over. (create_nonce again path left_over dropped).0) e

-- Let what is drawn have no whitespace at its ends. If a call for a network gives a nonce, then a
-- later call gives the same, and leaves the files as they are, whatever it would have drawn. If no
-- temporary file was there, then once the nonce is dropped a call gives a newly drawn one.
pub ensure_nonce_again :
    (drawn again network_id : String) (files : Dict String String) (answer : String × String)
    → strip drawn ≡ drawn
    → (ensure_nonce drawn network_id files).0 ≡ some answer
    → Dict.lookup (nonce_path network_id <> ".tmp") files ≡ none
    → (ensure_nonce again network_id (ensure_nonce drawn network_id files).1
        ≡ (some answer, (ensure_nonce drawn network_id files).1))
      × ((ensure_nonce again network_id
            (drop_nonce network_id (ensure_nonce drawn network_id files).1)).0
          ≡ some (nonce_path network_id, again))
unfolding ensure_nonce drop_nonce
ensure_nonce_again drawn again network_id files answer plain h e =
    let path = nonce_path network_id in
    let found = Dict.lookup path files in
    (
      read_nonce_again drawn again path found files answer plain refl h,
      created_anew again path (read_nonce drawn path found files).1
          (no_left_over drawn path found files e),
    )
