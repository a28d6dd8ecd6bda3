-- ===== src/Config/Tests.antt =====
-- A configuration of two files, over a small JSON.
use mathlib.Core.Path.{subst}
use gdfile_store.Base.{
  ℕ, ◌≡◌, refl, Bool, true, false, Option, none, some, List, [], ◌∷◌, ◌++◌, ◌>>=◌, bytes_eq,
  if◌then◌else◌, inl, inr, bytes_eq_self, Bool-cases, >>=-eq-some,
}
use gdfile_store.KeyValue.Assoc.{find, assign}
use gdfile_store.Config.Layers.{Layers, get_config-overlaid}
use gdfile_store.Config.{JsonLib, dot_default, dot_json, integrated, get_config}

-- null, a text, and an object: its members, one after the other.
data Json : Type 0 where
  null_json no_members : Json
  text_json : List ℕ → Json
  with_member : List ℕ → Json → Json → Json

abbrev is_empty : Json → Bool
is_empty null_json = true
is_empty no_members = true
is_empty _ = false

abbrev put_back : List ℕ → Json → Json × Json → Option (Json × Json)
put_back j v found = some (found.0, with_member j v found.1)

unfoldable at : List ℕ → Json → Option (Json × Json)
at k null_json = some (null_json, with_member k null_json no_members)
at k no_members = some (null_json, with_member k null_json no_members)
at k (text_json s) = none
at k (with_member j v rest) =
    let found = at k rest in
    if bytes_eq j k then some (v, with_member j v rest) else found >>= put_back j v

at-again : (k : List ℕ) (j v left : Json) → at k j ≡ some (v, left) → at k left ≡ some (v, left)
unfolding at
at-again k null_json v left h =
    let found : (null_json, with_member k null_json no_members) ≡ (v, left) = cc in
    subst (λ (r : Json × Json). at k r.1 ≡ some r) found (rw (bytes_eq_self k) refl)
at-again k no_members v left h =
    let found : (null_json, with_member k null_json no_members) ≡ (v, left) = cc in
    subst (λ (r : Json × Json). at k r.1 ≡ some r) found (rw (bytes_eq_self k) refl)
at-again k (text_json s) v left h = absurd (cc)
at-again k (with_member j w rest) v left h = elim (Bool-cases (bytes_eq j k)) [
  | inl e ↦
      let found : (w, with_member j w rest) ≡ (v, left) = cc (rw e at h) in
      subst (λ (r : Json × Json). at k r.1 ≡ some r) found (rw e refl)
  | inr e ↦
      let ((u, l), e', r) = >>=-eq-some (at k rest) (put_back j w) (rw e at h) in
      let found : (u, with_member j w l) ≡ (v, left) = cc in
      subst (λ (r : Json × Json). at k r.1 ≡ some r) found (rw (e, at-again k rest u l e') refl)
]

abbrev json : JsonLib
json = record {
  Json = Json;
  null = null_json;
  is_empty = is_empty;
  at = at;
  is_empty-null = refl;
  at-again = at-again;
}

-- {"osd":{"k":"a"}} in integrated.default.json, {"k":"b"} in osd.json, and nothing else.
abbrev osd : List ℕ
osd = b'o' ∷ b's' ∷ b'd' ∷ []

abbrev key : List ℕ
key = b'k' ∷ []

abbrev of_key : List ℕ → Json
of_key s = with_member key (text_json s) no_members

unfoldable file : List ℕ → Json
file name =
    if bytes_eq name (integrated ++ dot_default ++ dot_json)
    then with_member osd (of_key (b'a' ∷ [])) no_members
    else if bytes_eq name (osd ++ dot_json)
    then of_key (b'b' ∷ [])
    else null_json

layers :
    Layers json file osd key (text_json (b'a' ∷ [])) null_json null_json (text_json (b'b' ∷ []))
unfolding file at bytes_eq
layers = record {
  source1 = of_key (b'a' ∷ []);
  source2 = null_json;
  read1 = refl;
  read2 = refl;
  left1 = (_, refl);
  left2 = (_, refl);
  left3 = (_, refl);
  left4 = (_, refl);
}

nothing : Layers json file [] key null_json null_json null_json null_json
unfolding file at bytes_eq
nothing = record {
  source1 = null_json;
  source2 = null_json;
  read1 = refl;
  read2 = refl;
  left1 = (_, refl);
  left2 = (_, refl);
  left3 = (_, refl);
  left4 = (_, refl);
}

get_config-overlaid_example :
    (left : List (List ℕ × Json)) × (get_config json file osd key [] true []
      ≡ some (text_json (b'b' ∷ []), left))
get_config-overlaid_example =
    get_config-overlaid json file osd key [] _ _ _ _ null_json null_json null_json null_json layers
      nothing []

-- No file at first, and then the files: without a demand the cache is not filled again, because the
-- first question left an object in it.
abbrev no_file : List ℕ → Json
no_file name = null_json

not_read_again :
    (get_config json no_file osd key [] false [] >>= λ (r : Json × List (List ℕ × Json)).
    get_config json file osd key [] false r.1 >>= λ (q : Json × List (List ℕ × Json)). some q.0)
    ≡ some null_json
unfolding get_config file at bytes_eq find assign
not_read_again = refl
