-- ===== src/DocSearch/Index.antt =====
-- The search data of the documentation (the files Doc/html/search/*_*.js, which define searchData).
pub mod AllAToE
pub mod AllFToO
pub mod AllP
pub mod AllRToW
pub mod VariablesBToI
pub mod VariablesMToV
pub mod Defines
pub mod Functions
pub mod Types
pub mod Lookup
pub mod Shown
pub mod Found
pub mod Counted
pub mod Absent
use upciedev.Prelude.{ℕ, Bool, true, List, [], ◌∷◌, ◌&&◌, ◌==◌, ltb}
use Prim.Native.String.{String}
use upciedev.DocSearch.Text.{Text, codes, text_eq, convert_to_id, to_lower_case}
use upciedev.DocSearch.Results.{SearchEntry, Target}

abbrev pub target : String → String → Target
target href scope = record { href = codes href; scope = codes scope }

abbrev pub several : String → String → List Target → SearchEntry
several id name targets = record { id = codes id; name = codes name; targets = targets }

abbrev pub single : String → String → String → String → SearchEntry
single id name href scope = several id name (target href scope ∷ [])

-- A page of the index: the letter in the name of its file, and the data that it loads.
pub record IndexPage : Type 0 where
  pub letter : ℕ
  pub entries : List SearchEntry

abbrev pub page : ℕ → List SearchEntry → IndexPage
page c es = record { letter = c; entries = es }
