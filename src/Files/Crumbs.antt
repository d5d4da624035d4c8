-- ===== src/Files/Crumbs.antt =====
-- The folders above the one that is open (`breadcrumbs`, web/atlas.js), by name and path. The buttons
-- that show them are not modelled.
use mysyncfiles.Prelude.{
  ℕ, ◌≡◌, refl, sym, ap, ◌∙◌, false, append_assoc, All-append, List, [], ◌∷◌, ◌++◌, Text, codes,
  has_unit, All, ◌==◌, if◌then◌else◌, arith,
}
use mysyncfiles.Indent.{is_empty}
use mysyncfiles.Files.Upload.{path_in}

-- `directory.split("/").filter(Boolean)`
unfoldable pub onto : ℕ → List Text → List Text
onto c [] = (c ∷ []) ∷ []
onto c (part ∷ parts) = (c ∷ part) ∷ parts

unfoldable pub split : Text → List Text
unfolding onto
split [] = [] ∷ []
split (c ∷ t) = let rest = split t in if c == 47 then [] ∷ rest else onto c rest

unfoldable pub named_parts : List Text → List Text
named_parts [] = []
named_parts (part ∷ parts) =
    let rest = named_parts parts in if is_empty part then rest else part ∷ rest

unfoldable pub crumbs : Text → List Text → List (Text × Text)
unfolding path_in
crumbs path [] = []
crumbs path (part ∷ parts) = (part, path_in path part) ∷ crumbs (path_in path part) parts

-- A search has no folders.
unfoldable pub breadcrumbs : Text → Text → List (Text × Text)
unfolding split named_parts crumbs
breadcrumbs search directory =
    (codes "Fichiers", [])
    ∷ (if is_empty search then crumbs [] (named_parts (split directory)) else [])

-- A path of the names of folders, and each folder on it with its own path.
abbrev pub join : List Text → Text
join [] = []
join (name ∷ []) = name
join (name ∷ next ∷ names) = name ++ 47 ∷ join (next ∷ names)

abbrev pub folders_of : List Text → List Text → List (Text × Text)
folders_of above [] = []
folders_of above (name ∷ names) =
    let here = above ++ name ∷ [] in (name, join here) ∷ folders_of here names

-- A name of a folder: it is not empty and has no slash.
abbrev pub IsName : Text → Type 0
IsName t = (is_empty t ≡ false) × (has_unit 47 t ≡ false)

split-name : (t : Text) → has_unit 47 t ≡ false → split t ≡ t ∷ []
unfolding split onto has_unit
split-name [] h = refl
split-name (c ∷ t) h =
    let plain : (c == 47) ≡ false = ground (arith, h) in
    rw plain (ap (onto c) (split-name t (ground (arith, h))))

split-append : (t u : Text) → has_unit 47 t ≡ false → split (t ++ 47 ∷ u) ≡ t ∷ split u
unfolding split onto has_unit
split-append [] u h = refl
split-append (c ∷ t) u h =
    let plain : (c == 47) ≡ false = ground (arith, h) in
    rw plain (ap (onto c) (split-append t u (ground (arith, h))))

split-join :
    (name : Text) (names : List Text)
    → All IsName (name ∷ names)
    → split (join (name ∷ names)) ≡ name ∷ names
split-join name [] a = split-name name a.0.1
split-join name (next ∷ names) a =
    split-append name (join (next ∷ names)) a.0.1
    ∙ ap (λ parts. name ∷ parts) (split-join next names a.1)

named_parts-names : (names : List Text) → All IsName names → named_parts names ≡ names
unfolding named_parts
named_parts-names [] a = refl
named_parts-names (name ∷ names) a =
    rw a.0.0 (ap (λ parts. name ∷ parts) (named_parts-names names a.1))

named_parts-join : (names : List Text) → All IsName names → named_parts (split (join names)) ≡ names
unfolding named_parts split is_empty
named_parts-join [] a = refl
named_parts-join (name ∷ names) a =
    ap named_parts (split-join name names a) ∙ named_parts-names (name ∷ names) a

join-snoc :
    (name : Text) (names : List Text) (part : Text)
    → join (name ∷ names ++ part ∷ []) ≡ join (name ∷ names) ++ 47 ∷ part
join-snoc name [] part = refl
join-snoc name (next ∷ names) part =
    ap (λ t. name ++ 47 ∷ t) (join-snoc next names part)
    ∙ sym (append_assoc name (47 ∷ join (next ∷ names)) (47 ∷ part))

path_in-join :
    (above : List Text) (part : Text)
    → All IsName above
    → path_in (join above) part ≡ join (above ++ part ∷ [])
unfolding path_in is_empty
path_in-join [] part a = refl
path_in-join ([] ∷ names) part a = let bad : ⊥ = cc in elim bad [ ]
path_in-join ((c ∷ t) ∷ []) part a = refl
path_in-join ((c ∷ t) ∷ next ∷ names) part a = sym (join-snoc (c ∷ t) (next ∷ names) part)

crumbs-folders :
    (above names : List Text)
    → All IsName above
    → All IsName names
    → crumbs (join above) names ≡ folders_of above names
unfolding crumbs
crumbs-folders above [] a b = refl
crumbs-folders above (name ∷ names) a b = rw (path_in-join above name a) (
    ap (λ rest. (name, join (above ++ name ∷ [])) ∷ rest)
      (crumbs-folders (above ++ name ∷ []) names (All-append IsName above (name ∷ []) a (b.0, tt))
        b.1))

-- For the path of the folders of some names, the path above the listing is the root and then each of
-- these folders, in order, by its name and its own path, or the root alone for a search.
pub breadcrumbs-AreFolders :
    (search : Text) (names : List Text)
    → All IsName names
    → breadcrumbs search (join names)
      ≡ (codes "Fichiers", []) ∷ (if is_empty search then folders_of [] names else [])
unfolding breadcrumbs
breadcrumbs-AreFolders search names a =
    ap (λ folders. (codes "Fichiers", []) ∷ (if is_empty search then folders else []))
      (ap (crumbs []) (named_parts-join names a) ∙ crumbs-folders [] names tt a)
