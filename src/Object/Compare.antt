-- ===== src/Object/Compare.antt =====
-- The order and the description of GHObject_t (src/deps/object.h): what they tell apart.
use mathlib.Core.Bool.{not}
use gdfile_store.Base.{
  ℕ, ◌+◌, ◌*◌, ◌/◌, ◌%◌, ◌<◌, ◌≡◌, ◌≢◌, ◌↔◌, refl, sym, ap, Bool, true, false, ◌&&◌, List, [], ◌∷◌,
  ◌++◌, append_assoc, arith, bytes_eq, bytes_eq_iff, bytes_lt,
}
use gdfile_store.Base.Int.{ℤ, pos, ltb_ℤ}
use gdfile_store.Decimal.{print_int, print}
use gdfile_store.Decimal.RoundTrip.{print_more}
use gdfile_store.Object.{GhObject, gh_eq, gh_lt}

-- GetObjUniqueStrDesc: the fields one behind the other. `{:0>}` has no width, so it fills nothing.
unfoldable pub get_obj_unique_str_desc : GhObject → List ℕ
unfolding print_int
get_obj_unique_str_desc g =
    g.owner
    ++ (print_int g.hobj.pool
        ++ (g.hobj.oid.name
            ++ (print_int g.hobj.snap.time_stamp
                ++ (print_int g.generation ++ print_int g.shard_id.id))))

-- GHObject_t::GetLiteralDescription
unfoldable pub get_literal_description : GhObject → List ℕ
get_literal_description g = g.owner ++ (b'.' ∷ g.hobj.oid.name)

-- What a std::map<GHObject_t, …> takes for one key: neither is less.
unfoldable pub gh_same : GhObject → GhObject → Bool
unfolding gh_lt
gh_same a b = not (gh_lt a b) && not (gh_lt b a)

bytes_lt_irrefl : (a : List ℕ) → bytes_lt a a ≡ false
unfolding bytes_lt
bytes_lt_irrefl [] = refl
bytes_lt_irrefl (x ∷ a) = ground (arith, bytes_lt_irrefl a)

bytes_lt_total : (a b : List ℕ) → bytes_lt a b ≡ false → bytes_lt b a ≡ false → a ≡ b
unfolding bytes_lt
bytes_lt_total [] [] h k = refl
bytes_lt_total [] (y ∷ b) h k = cc
bytes_lt_total (x ∷ a) [] h k = cc
bytes_lt_total (x ∷ a) (y ∷ b) h k = ground (arith, bytes_lt_total a b)

ltb_ℤ_total : (a b : ℤ) → ltb_ℤ a b ≡ false → ltb_ℤ b a ≡ false → a ≡ b
ltb_ℤ_total a b h k = ground arith

ltb_ℤ_irrefl : (a : ℤ) → ltb_ℤ a a ≡ false
ltb_ℤ_irrefl a = ground arith

module _ (a b : GhObject) where
  gh_same_sound :
      gh_same a b ≡ true → (a.hobj.oid.name ≡ b.hobj.oid.name) × (a.generation ≡ b.generation)
  unfolding gh_same
  gh_same_sound h =
      let n = a.hobj.oid.name in
      let m = b.hobj.oid.name in
      let names : n ≡ m = bytes_lt_total n m (ground arith) (ground arith) in
      let same : bytes_eq n m ≡ true = (bytes_eq_iff n m).1 names in
      let same' : bytes_eq m n ≡ true = (bytes_eq_iff m n).1 (sym names) in
      (names, ltb_ℤ_total a.generation b.generation (ground arith) (ground arith))

  gh_same_complete :
      a.hobj.oid.name ≡ b.hobj.oid.name → a.generation ≡ b.generation → gh_same a b ≡ true
  unfolding gh_same gh_lt
  gh_same_complete n g = rw (
    n,
    g,
    bytes_lt_irrefl b.hobj.oid.name,
    (bytes_eq_iff b.hobj.oid.name b.hobj.oid.name).1 refl,
    ltb_ℤ_irrefl b.generation,
  )

  -- A std::map with GHObject_t keys takes two objects for one key exactly where their names and
  -- generations agree: owner, shard, snap and pool play no part.
  pub gh_same_iff :
      (gh_same a b ≡ true) ↔ ((a.hobj.oid.name ≡ b.hobj.oid.name) × (a.generation ≡ b.generation))
  gh_same_iff = (gh_same_sound, λ h. gh_same_complete h.0 h.1)

-- Two objects of one name and generation that differ in their owners are different by operator==,
-- and one key of a std::map.
pub gh_same-owners :
    (a : GhObject) (owner : List ℕ)
    → a.owner ≢ owner
    → (gh_eq a (record a { owner = owner }) ≡ false)
      × (gh_same a (record a { owner = owner }) ≡ true)
unfolding gh_eq
gh_same-owners a owner h = (
  ground (arith, bytes_eq_iff a.owner owner),
  gh_same_complete a (record a { owner = owner }) refl refl,
)

-- The same object but for its pool and its name.
abbrev pub renamed : GhObject → ℕ → List ℕ → GhObject
renamed g pool name = record g {
  hobj = record g.hobj { oid = record { name = name }; pool = pos pool };
}

-- The description is not unique: a digit that begins the name can as well end the number of a
-- pool other than 0, and the descriptions are equal.
pub get_obj_unique_str_desc_collides :
    (g : GhObject) (pool d : ℕ) (name : List ℕ)
    → 0 < pool
    → d < 10
    → get_obj_unique_str_desc (renamed g pool ((48 + d) ∷ name))
      ≡ get_obj_unique_str_desc (renamed g (pool * 10 + d) name)
unfolding get_obj_unique_str_desc
get_obj_unique_str_desc_collides g pool d name h k =
    let quotient : (pool * 10 + d) / 10 ≡ pool = omega arith in
    let rest : (pool * 10 + d) % 10 ≡ d = omega arith in
    rw (print_more (pool * 10 + d) (omega arith), quotient, rest)
      (ap (◌++◌ g.owner) (sym (append_assoc (print pool) ((48 + d) ∷ []) _)))
