-- ===== src/Config/Layers.antt =====
-- On demand, the configuration of a name is that of its last layer that has something for the key.
use gdfile_store.Base.{
  ℕ, ◌+◌, ◌≡◌, ◌≢◌, refl, ap, ◌∙◌, inl, inr, Bool-cases, true, ◌&&◌, Option, some, List, [], ◌∷◌,
  ◌++◌, ◌>>=◌, arith, bytes_eq, bytes_eq_iff, bytes_eq_self, bytes_eq_ne, if◌then◌else◌, length,
  length-append,
}
use gdfile_store.KeyValue.Assoc.{assign, find-assign_self, find-assign_other}
use gdfile_store.Config.{
  JsonLib, dot_default, dot_json, integrated, index1, index2, index3, or_null, Cache, cached,
  member_of, load, load_all, overlay, get_own, is_named, get_config,
}

module _ (lib : JsonLib) (file : List ℕ → lib.Json) where
  -- What the four layers of a name have for a key: the members of the two integrated files, and of
  -- the two files of the name.
  pub record Layers (name key : List ℕ) (v1 v2 v3 v4 : lib.Json) : Type 0 where
    pub source1 : lib.Json
    pub source2 : lib.Json
    pub read1 : member_of lib file (integrated ++ dot_default) name ≡ some source1
    pub read2 : member_of lib file integrated name ≡ some source2
    pub left1 : (j : lib.Json) × (lib.at key source1 ≡ some (v1, j))
    pub left2 : (j : lib.Json) × (lib.at key source2 ≡ some (v2, j))
    pub left3 :
        (j : lib.Json) × (lib.at key (file ((name ++ dot_default) ++ dot_json)) ≡ some (v3, j))
    pub left4 : (j : lib.Json) × (lib.at key (file (name ++ dot_json)) ≡ some (v4, j))

  -- The later of two values that is not empty.
  abbrev pub over : lib.Json → lib.Json → lib.Json
  over ret v = if lib.is_empty v then ret else v

  abbrev pub overlaid : lib.Json → lib.Json → lib.Json → lib.Json → lib.Json
  overlaid v1 v2 v3 v4 = over (over (over (over lib.null v1) v2) v3) v4

  cached_self :
      (i : List ℕ) (s : lib.Json) (c : Cache lib file)
      → cached lib file i (assign bytes_eq i s c) ≡ s
  unfolding cached
  cached_self i s c = ap (or_null lib file) (find-assign_self bytes_eq i s c (bytes_eq_self i))

  cached_other :
      (i j : List ℕ) (s : lib.Json) (c : Cache lib file)
      → length j ≢ length i
      → cached lib file i (assign bytes_eq j s c) ≡ cached lib file i c
  unfolding cached
  cached_other i j s c h =
      let ne = bytes_eq_ne j i (λ e. h (ap length e)) in
      ap (or_null lib file)
        (find-assign_other bytes_eq j i s c ne (λ k e. rw ((bytes_eq_iff k j).0 e) ne))

  load-reload :
      (i : List ℕ) (source : Option lib.Json) (s : lib.Json) (c : Cache lib file)
      → source ≡ some s
      → load lib file i source true c ≡ some (assign bytes_eq i s c)
  unfolding load
  load-reload i source s c e = elim (Bool-cases (lib.is_empty (cached lib file i c))) [
    | inl h ↦ rw (h, e) refl
    | inr h ↦ rw (h, e) refl
  ]

  overlay-cons :
      (key i : List ℕ) (is : List (List ℕ)) (ret s v j : lib.Json) (c : Cache lib file)
      → cached lib file i c ≡ s
      → lib.at key s ≡ some (v, j)
      → overlay lib file key (i ∷ is) ret c
        ≡ overlay lib file key is (over ret v) (assign bytes_eq i j c)
  unfolding overlay
  overlay-cons key i is ret s v j c e h = rw (e, h) refl

  module _ (name key : List ℕ) (v1 v2 v3 v4 : lib.Json) (h : Layers name key v1 v2 v3 v4)
      (cache : Cache lib file) where
    filled : Cache lib file
    filled = assign bytes_eq name (file (name ++ dot_json)) (
        assign bytes_eq (index3 name) (file ((name ++ dot_default) ++ dot_json))
          (assign bytes_eq (index2 name) h.source2 (assign bytes_eq (index1 name) h.source1 cache)))

    load_all-reload : load_all lib file name true cache ≡ some filled
    unfolding load_all filled
    load_all-reload =
        rw
          (
            load-reload (index1 name) _ h.source1 cache h.read1,
            load-reload (index2 name) _ h.source2 _ h.read2,
            load-reload (index3 name) _ _ _ refl,
          )
          (load-reload name _ _ _ refl)

    -- The keys of the cache for one name differ in their lengths.
    length-index :
        (length (index1 name) ≡ length name + 19)
        × (length (index2 name) ≡ length name + 11)
        × (length (index3 name) ≡ length name + 8)
    length-index = (
      omega (arith, length-append (integrated ++ dot_default) (b'.' ∷ name)),
      omega (arith, length-append integrated (b'.' ∷ name)),
      omega (arith, length-append name dot_default),
    )

    filled-cached :
        (cached lib file (index1 name) filled ≡ h.source1)
        × (cached lib file (index2 name) filled ≡ h.source2)
        × (cached lib file (index3 name) filled ≡ file ((name ++ dot_default) ++ dot_json))
        × (cached lib file name filled ≡ file (name ++ dot_json))
    unfolding filled
    filled-cached =
        let l = length-index in
        (
          cached_other (index1 name) name _ _ (λ e. omega (arith, l.0, e))
              ∙ cached_other (index1 name) (index3 name) _ _ (λ e. omega (arith, l.0, l.2, e))
              ∙ cached_other (index1 name) (index2 name) _ _ (λ e. omega (arith, l.0, l.1, e))
              ∙ cached_self (index1 name) _ _,
          cached_other (index2 name) name _ _ (λ e. omega (arith, l.1, e))
              ∙ cached_other (index2 name) (index3 name) _ _ (λ e. omega (arith, l.1, l.2, e))
              ∙ cached_self (index2 name) _ _,
          cached_other (index3 name) name _ _ (λ e. omega (arith, l.2, e))
              ∙ cached_self (index3 name) _ _,
          cached_self name _ _,
        )

    get_own-overlaid :
        (left : Cache lib file) × (get_own lib file name key true cache
          ≡ some (overlaid v1 v2 v3 v4, left))
    unfolding get_own overlay
    get_own-overlaid =
        let l = length-index in
        let (f1, f2, f3, f4) = filled-cached in
        let step1 =
          overlay-cons key (index1 name) (index2 name ∷ index3 name ∷ name ∷ []) lib.null _ v1 _
            filled f1 h.left1.1 in
        (
          _,
          ap
                (λ (loaded : Option (Cache lib file)).
                  loaded
                  >>= overlay lib file key (index1 name ∷ index2 name ∷ index3 name ∷ name ∷ [])
                      lib.null)
                load_all-reload
              ∙ (step1
                  ∙ overlay-cons key (index2 name) (index3 name ∷ name ∷ []) _ _ v2 _ _
                      (cached_other (index2 name) (index1 name) _ _
                          (λ e. omega (arith, l.0, l.1, e))
                        ∙ f2)
                      h.left2.1
                  ∙ overlay-cons key (index3 name) (name ∷ []) _ _ v3 _ _
                      (cached_other (index3 name) (index2 name) _ _
                          (λ e. omega (arith, l.1, l.2, e))
                        ∙ cached_other (index3 name) (index1 name) _ _
                            (λ e. omega (arith, l.0, l.2, e))
                        ∙ f3)
                      h.left3.1
                  ∙ overlay-cons key name [] _ _ v4 _ _
                      (cached_other name (index3 name) _ _ (λ e. omega (arith, l.2, e))
                        ∙ cached_other name (index2 name) _ _ (λ e. omega (arith, l.1, e))
                        ∙ cached_other name (index1 name) _ _ (λ e. omega (arith, l.0, e))
                        ∙ f4)
                      h.left4.1),
        )

  module _ (name key default_class : List ℕ) (v1 v2 v3 v4 w1 w2 w3 w4 : lib.Json)
      (own : Layers name key v1 v2 v3 v4) (class : Layers default_class key w1 w2 w3 w4)
      (cache : Cache lib file) where
    -- On demand, whatever the cache holds, GetConfig answers what the last layer of the name has
    -- for the key that is not empty; only where all four are empty, and a default class is named,
    -- what the last layer of the class has that is not empty.
    pub get_config-overlaid :
        (left : Cache lib file) × (get_config lib file name key default_class true cache
          ≡ some (
            if lib.is_empty (overlaid v1 v2 v3 v4) && is_named default_class
                then overlaid w1 w2 w3 w4
                else overlaid v1 v2 v3 v4,
            left,
          ))
    unfolding get_config
    get_config-overlaid =
        let (c1, e1) = get_own-overlaid name key v1 v2 v3 v4 own cache in
        let (c2, e2) = get_own-overlaid default_class key w1 w2 w3 w4 class c1 in
        elim (Bool-cases (lib.is_empty (overlaid v1 v2 v3 v4) && is_named default_class)) [
          | inl e ↦ (c2, rw (e1, e, e2) refl)
          | inr e ↦ (c1, rw (e1, e) refl)
        ]
