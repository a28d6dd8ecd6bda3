-- ===== src/Object/Requests.antt =====
-- Which requests and node addresses the members carry whole.
use gdfile_store.Base.{ℕ, ◌^◌, ◌<◌, ◌≡◌, refl, List, [], ◌∷◌, map, length, All, length-map}
use gdfile_store.Base.Int.{ℤ, to_word, of_word, InWord, of_word-to_word}
use gdfile_store.Codec.{scalar, text, word32}
use gdfile_store.Codec.Word.{InBytes}
use gdfile_store.Codec.Encode.{Sized}
use gdfile_store.Codec.RoundTrip.{Exact}
use gdfile_store.Object.{InfoForOsd, OpeType, Wope, Rope, RopeResult}
use gdfile_store.Object.Members.{
  of_ope_type, to_ope_type, info_ty, info_members, read_info, wope_ty, wope_members, read_wope,
  rope_ty, rope_members, read_rope, result_ty, result_members, read_result,
}
use gdfile_store.Object.Serial.{
  InBytes-int, IsText, IsStorable, with_pool, ghobject-Sized, ghobject-Exact, read_ghobject_lem,
  IsOpeType, ope_type_exact,
}

pub record IsStorableInfo (i : InfoForOsd) : Type 0 where
  pub name : IsText i.name
  pub host : IsText i.host
  pub port : InWord word32 i.port

module _ (i : InfoForOsd) (h : IsStorableInfo i) where
  pub info-Sized : Sized info_ty (info_members i)
  unfolding info_members
  info-Sized = (h.name, (h.host, (tt, tt)))

  pub info-Exact : Exact info_ty (info_members i)
  unfolding info_members
  info-Exact = (tt, (tt, (InBytes-int _, tt)))

  pub read_info_lem : read_info (info_members i) ≡ i
  unfolding read_info info_members
  read_info_lem = rw (of_word-to_word word32 _ h.port)

pub record IsStorableWope (w : Wope) : Type 0 where
  pub types : All IsOpeType w.types
  pub type_count : length w.types < 2 ^ 31
  pub block_nums : All (InWord word32) w.block_nums
  pub num_count : length w.block_nums < 2 ^ 31
  pub block_datas : All IsText w.block_datas
  pub data_count : length w.block_datas < 2 ^ 31
  pub ghobj : IsStorable w.ghobj
  pub new_ghobj : IsStorable w.new_ghobj

All-map-trivial : {A : Type 0} (w : ℕ) (f : A → ℕ) (xs : List A) → All (Sized (scalar w)) (map f xs)
All-map-trivial w f [] = tt
All-map-trivial w f (x ∷ xs) = (tt, All-map-trivial w f xs)

types_exact :
    (ts : List OpeType)
    → All IsOpeType ts
    → All (InBytes 4) (map of_ope_type ts) × (map to_ope_type (map of_ope_type ts) ≡ ts)
types_exact [] h = (tt, refl)
types_exact (t ∷ ts) h =
    let one = ope_type_exact t h.0 in
    let rest = types_exact ts h.1 in ((one.0, rest.0), rw (one.1, rest.1))

nums_exact :
    (zs : List ℤ)
    → All (InWord word32) zs
    → All (InBytes 4) (map (to_word word32) zs)
      × (map (of_word word32) (map (to_word word32) zs) ≡ zs)
nums_exact [] h = (tt, refl)
nums_exact (z ∷ zs) h =
    let rest = nums_exact zs h.1 in
    ((InBytes-int z, rest.0), rw (of_word-to_word word32 z h.0, rest.1))

texts-Exact : (xs : List (List ℕ)) → All (Exact text) xs
texts-Exact [] = tt
texts-Exact (x ∷ xs) = (tt, texts-Exact xs)

module _ (w : Wope) (h : IsStorableWope w) where
  pub wope-Sized : Sized wope_ty (wope_members w)
  unfolding wope_members
  wope-Sized = (
    (rw length-map h.type_count, All-map-trivial 4 of_ope_type w.types),
    (
      ghobject-Sized w.ghobj h.ghobj,
      (
        ghobject-Sized w.new_ghobj h.new_ghobj,
        (
          (rw length-map h.num_count, All-map-trivial 4 (to_word word32) w.block_nums),
          ((h.data_count, h.block_datas), tt),
        ),
      ),
    ),
  )

  pub wope-Exact : Exact wope_ty (wope_members w)
  unfolding wope_members
  wope-Exact = (
    (types_exact w.types h.types).0,
    (
      ghobject-Exact w.ghobj h.ghobj,
      (
        ghobject-Exact w.new_ghobj h.new_ghobj,
        ((nums_exact w.block_nums h.block_nums).0, (texts-Exact w.block_datas, tt)),
      ),
    ),
  )

  pub read_wope_lem :
      (pool new_pool : ℤ)
      → read_wope pool new_pool (wope_members w)
        ≡ record w { ghobj = with_pool pool w.ghobj; new_ghobj = with_pool new_pool w.new_ghobj }
  unfolding read_wope wope_members
  read_wope_lem pool new_pool = rw (
    (types_exact w.types h.types).1,
    (nums_exact w.block_nums h.block_nums).1,
    read_ghobject_lem w.ghobj h.ghobj pool,
    read_ghobject_lem w.new_ghobj h.new_ghobj new_pool,
  )

pub record IsStorableRope (r : Rope) : Type 0 where
  pub ghobj : IsStorable r.ghobj
  pub blocks : All (InWord word32) r.blocks
  pub block_count : length r.blocks < 2 ^ 31

module _ (r : Rope) (h : IsStorableRope r) where
  pub rope-Sized : Sized rope_ty (rope_members r)
  unfolding rope_members
  rope-Sized = (
    ghobject-Sized r.ghobj h.ghobj,
    ((rw length-map h.block_count, All-map-trivial 4 (to_word word32) r.blocks), tt),
  )

  pub rope-Exact : Exact rope_ty (rope_members r)
  unfolding rope_members
  rope-Exact = (ghobject-Exact r.ghobj h.ghobj, ((nums_exact r.blocks h.blocks).0, tt))

  pub read_rope_lem :
      (pool : ℤ) → read_rope pool (rope_members r) ≡ record r { ghobj = with_pool pool r.ghobj }
  unfolding read_rope rope_members
  read_rope_lem pool = rw ((nums_exact r.blocks h.blocks).1, read_ghobject_lem r.ghobj h.ghobj pool)

pub record IsStorableResult (r : RopeResult) : Type 0 where
  pub ope_id : IsText r.ope_id
  pub ghobj : IsStorable r.ghobj
  pub blocks : All (InWord word32) r.blocks
  pub block_count : length r.blocks < 2 ^ 31
  pub datas : All IsText r.datas
  pub data_count : length r.datas < 2 ^ 31

module _ (r : RopeResult) (h : IsStorableResult r) where
  pub result-Sized : Sized result_ty (result_members r)
  unfolding result_members
  result-Sized = (
    h.ope_id,
    (
      ghobject-Sized r.ghobj h.ghobj,
      (
        (rw length-map h.block_count, All-map-trivial 4 (to_word word32) r.blocks),
        ((h.data_count, h.datas), tt),
      ),
    ),
  )

  pub result-Exact : Exact result_ty (result_members r)
  unfolding result_members
  result-Exact = (
    tt,
    (ghobject-Exact r.ghobj h.ghobj, ((nums_exact r.blocks h.blocks).0, (texts-Exact r.datas, tt))),
  )

  pub read_result_lem :
      (pool : ℤ) → read_result pool (result_members r) ≡ record r { ghobj = with_pool pool r.ghobj }
  unfolding read_result result_members
  read_result_lem pool =
      rw ((nums_exact r.blocks h.blocks).1, read_ghobject_lem r.ghobj h.ghobj pool)
