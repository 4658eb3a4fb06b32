-- ===== src/Patch/Path.antt =====
-- `parsePatchPath` and `validAttributePath`, of pkg/scim/patch_apply.go and pkg/scim/patch.go.
use gotth_scim.Base.{
  ℕ, ◌+◌, ◌-◌, Bool, ◌&&◌, ◌||◌, not, leb, ◌==◌, if◌then◌else◌, Str, str_eq, has_byte, split, take,
  drop, length, Option, none, some, List, [], ◌∷◌, ◌++◌, Unicode,
}
use gotth_scim.Failure.{Result, ok, err, fault, ◌>>=◌, ◌>>◌, refuse}
use gotth_scim.Json.Decode.{is_present, core_key_cases, canonical}
use gotth_scim.Schema.{Extension, Definition, valid_name}
use gotth_scim.Schema.Resolve.{after_prefix, resolve_attribute_contract}

-- `patchPath`: an empty text for a part that is not there.
pub record PatchPath : Type 0 where
  pub extension : Str
  pub attribute : Str
  pub filter : Str
  pub sub : Str

-- `strings.IndexByte` and `strings.LastIndexByte`
index_byte : ℕ → Str → Option ℕ
index_byte c [] = none
index_byte c (x ∷ s) =
    let rest = index_byte c s in
    if x == c then some 0 else elim rest [ none ↦ none | some n ↦ some (n + 1) ]

last_index_byte : ℕ → Str → Option ℕ
last_index_byte c [] = none
last_index_byte c (x ∷ s) = elim (last_index_byte c s) [
  | none ↦ if x == c then some 0 else none
  | some n ↦ some (n + 1)
]

-- The parts of a path: the attribute, the filter and the sub-attribute.
abbrev Parts : Type 0
Parts = Str × Str × Str

-- What stands behind the closing bracket.
sub_after : Str → Result Str
sub_after [] = ok []
sub_after (c ∷ s) = if c == 46 then ok s else err fault

split_filtered : Str → ℕ → Option ℕ → Result Parts
unfolding has_byte sub_after
split_filtered s first none = err fault
split_filtered s first (some last) = do
  let inner = take (last - (first + 1)) (drop (first + 1) s)
  refuse (leb last first || has_byte 91 inner) fault
  sub ← sub_after (drop (last + 1) s)
  ok (take first s, inner, sub)

split_plain : List Str → Result Parts
split_plain (a ∷ []) = ok (a, [], [])
split_plain (a ∷ b ∷ []) = ok (a, [], b)
split_plain _ = err fault

split_path : Str → Result Parts
unfolding index_byte last_index_byte split_filtered split_plain split
split_path s = elim (index_byte 91 s) [
  | none ↦ split_plain (split 46 s)
  | some first ↦ split_filtered s first (last_index_byte 93 s)
]

-- `qualifiedPatchAttribute`
unfoldable pub qualified_patch_attribute : PatchPath → Str
qualified_patch_attribute p =
    if str_eq p.extension [] then p.attribute else p.extension ++ (58 ∷ p.attribute)

with_sub : Str → Str → Str
with_sub name [] = name
with_sub name (c ∷ sub) = name ++ (46 ∷ c ∷ sub)

module _ (u : Unicode) where
  -- `validAttributePath`
  unfoldable pub valid_attribute_path : Str → Bool
  unfolding has_byte
  valid_attribute_path path =
      leb (length path) 1024
      && u.valid_utf8 path
      && str_eq (u.trim_space path) path
      && not (u.has_control path)
      && not (
          has_byte 123 path
          || has_byte 125 path
          || has_byte 60 path
          || has_byte 62 path
          || has_byte 92 path)
      && not (str_eq path [])

  -- The loop over the extensions: the first whose schema qualifies the path, and the rest of it.
  qualified_by : List Extension → Str → Str × Str
  unfolding after_prefix
  qualified_by [] raw = ([], raw)
  qualified_by (e ∷ es) raw = elim (after_prefix u (e.schema ++ (58 ∷ [])) raw) [
    | none ↦ qualified_by es raw
    | some rest ↦ (e.schema, rest)
  ]

  respelled : Str → Str
  unfolding canonical core_key_cases
  respelled name = canonical u (core_key_cases u) name

  -- `parsePatchPath`
  unfoldable pub parse_patch_path : Definition → Str → Result PatchPath
  unfolding valid_attribute_path qualified_by split_path respelled qualified_patch_attribute
      with_sub resolve_attribute_contract valid_name
  parse_patch_path d raw = do
    refuse (not (valid_attribute_path raw)) fault
    let (extension, remaining) = qualified_by d.extensions raw
    (attribute, filter, sub) ← split_path remaining
    refuse (not (valid_name attribute) || (not (str_eq sub []) && not (valid_name sub))) fault
    let path : PatchPath = record {
      extension = extension;
      attribute = respelled attribute;
      filter = filter;
      sub = if str_eq sub [] then [] else respelled sub;
    }
    refuse
        (not (
          is_present u (
            resolve_attribute_contract u d none
              (with_sub (qualified_patch_attribute path) path.sub))))
        fault
    ok path
