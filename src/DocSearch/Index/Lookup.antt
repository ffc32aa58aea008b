-- ===== src/DocSearch/Index/Lookup.antt =====
-- The pages of the index by section and letter, and the table of search.js that says which there are
-- (indexSectionsWithContent of Doc/html/search/search.js).
use upciedev.Prelude.{
  ℕ, zero, suc, ◌<◌, Bool, true, false, List, [], ◌∷◌, map, ◌==◌, if◌then◌else◌, Option, none, some,
  get_elem?, ◌≡◌, refl, ap, arith, Bool-cases, inl, inr,
}
use upciedev.DocSearch.Box.{contains, has_content}
use upciedev.DocSearch.Results.{SearchEntry}
use upciedev.DocSearch.Index.{IndexPage, page}
use upciedev.DocSearch.Index.AllAToE.{all_61, all_62, all_63, all_64, all_65}
use upciedev.DocSearch.Index.AllFToO.{all_66, all_69, all_6d, all_6e, all_6f}
use upciedev.DocSearch.Index.AllP.{all_70}
use upciedev.DocSearch.Index.AllRToW.{all_72, all_73, all_75, all_76, all_77}
use upciedev.DocSearch.Index.VariablesBToI.{
  variables_62, variables_63, variables_64, variables_66, variables_69,
}
use upciedev.DocSearch.Index.VariablesMToV.{
  variables_6d, variables_6e, variables_6f, variables_70, variables_72, variables_73, variables_75,
  variables_76,
}
use upciedev.DocSearch.Index.Defines.{
  defines_61, defines_62, defines_64, defines_69, defines_70, defines_72, defines_77,
}
use upciedev.DocSearch.Index.Functions.{
  functions_65, functions_6d, functions_70, functions_72, functions_75,
}
use upciedev.DocSearch.Index.Types.{
  classes_64, classes_70, classes_75, files_70, files_75, typedefs_64, typedefs_70, typedefs_75,
}

abbrev pub all_pages : List IndexPage
all_pages =
    page b'a' all_61
    ∷ page b'b' all_62
    ∷ page b'c' all_63
    ∷ page b'd' all_64
    ∷ page b'e' all_65
    ∷ page b'f' all_66
    ∷ page b'i' all_69
    ∷ page b'm' all_6d
    ∷ page b'n' all_6e
    ∷ page b'o' all_6f
    ∷ page b'p' all_70
    ∷ page b'r' all_72
    ∷ page b's' all_73
    ∷ page b'u' all_75
    ∷ page b'v' all_76
    ∷ page b'w' all_77
    ∷ []

abbrev pub classes_pages : List IndexPage
classes_pages = page b'd' classes_64 ∷ page b'p' classes_70 ∷ page b'u' classes_75 ∷ []

abbrev pub files_pages : List IndexPage
files_pages = page b'p' files_70 ∷ page b'u' files_75 ∷ []

abbrev pub functions_pages : List IndexPage
functions_pages =
    page b'e' functions_65
    ∷ page b'm' functions_6d
    ∷ page b'p' functions_70
    ∷ page b'r' functions_72
    ∷ page b'u' functions_75
    ∷ []

abbrev pub variables_pages : List IndexPage
variables_pages =
    page b'b' variables_62
    ∷ page b'c' variables_63
    ∷ page b'd' variables_64
    ∷ page b'f' variables_66
    ∷ page b'i' variables_69
    ∷ page b'm' variables_6d
    ∷ page b'n' variables_6e
    ∷ page b'o' variables_6f
    ∷ page b'p' variables_70
    ∷ page b'r' variables_72
    ∷ page b's' variables_73
    ∷ page b'u' variables_75
    ∷ page b'v' variables_76
    ∷ []

abbrev pub typedefs_pages : List IndexPage
typedefs_pages = page b'd' typedefs_64 ∷ page b'p' typedefs_70 ∷ page b'u' typedefs_75 ∷ []

abbrev pub defines_pages : List IndexPage
defines_pages =
    page b'a' defines_61
    ∷ page b'b' defines_62
    ∷ page b'd' defines_64
    ∷ page b'i' defines_69
    ∷ page b'p' defines_70
    ∷ page b'r' defines_72
    ∷ page b'w' defines_77
    ∷ []

-- In the order of indexSectionNames.
abbrev pub index : List (List IndexPage)
index =
    all_pages ∷ classes_pages ∷ files_pages ∷ functions_pages ∷ variables_pages ∷ typedefs_pages
    ∷ defines_pages ∷ []

unfoldable pub find_page : ℕ → List IndexPage → Option (List SearchEntry)
find_page c [] = none
find_page c (p ∷ ps) = let rest = find_page c ps in if c == p.letter then some p.entries else rest

-- The data that the page of a section for a letter loads; `none` where there is no such file.
unfoldable pub search_data : ℕ → ℕ → Option (List SearchEntry)
search_data section c = elim (get_elem? index section) [ none ↦ none | some ps ↦ find_page c ps ]

abbrev pub is_file : Option (List SearchEntry) → Bool
is_file none = false
is_file (some es) = true

contains-is_file :
    (c : ℕ) (ps : List IndexPage)
    → contains c (map (λ (p : IndexPage). p.letter) ps) ≡ is_file (find_page c ps)
unfolding find_page
contains-is_file c [] = refl
contains-is_file c (p ∷ ps) = elim (Bool-cases (c == p.letter)) [
  | inl here ↦ rw here
  | inr other ↦ rw other (contains-is_file c ps)
]

there :
    (c : ℕ) (ps : List IndexPage)
    → some (contains c (map (λ (p : IndexPage). p.letter) ps)) ≡ some (is_file (find_page c ps))
there c ps = ap (λ (b : Bool). some b) (contains-is_file c ps)

-- For each of the seven sections, search.js says that it has content for a letter exactly when the
-- file of that section's page for the letter is there.
pub has_content-search_data :
    (section c : ℕ) → section < 7 → has_content section c ≡ some (is_file (search_data section c))
unfolding has_content search_data
has_content-search_data zero c h = there c all_pages
has_content-search_data (suc zero) c h = there c classes_pages
has_content-search_data (suc (suc zero)) c h = there c files_pages
has_content-search_data (suc (suc (suc zero))) c h = there c functions_pages
has_content-search_data (suc (suc (suc (suc zero)))) c h = there c variables_pages
has_content-search_data (suc (suc (suc (suc (suc zero))))) c h = there c typedefs_pages
has_content-search_data (suc (suc (suc (suc (suc (suc zero)))))) c h = there c defines_pages
has_content-search_data (suc (suc (suc (suc (suc (suc (suc section))))))) c h = absurd (omega arith)
