-- ===== src/Patterns/Composite.antt =====
-- structural/composite/main.go: a tree of directories and files, and its listing.
pub mod Laws
use awesome_patterns.Base.{String, Bool, true, false, List, [], ◌∷◌, ◌++◌, if◌then◌else◌}

mutual
  pub data File : Type 0 where
    file : (is_dir : Bool) (name : String) → Files → File

  pub data Files : Type 0 where
    no_files : Files
    add : File → Files → Files

abbrev pub is_dir : File → Bool
is_dir (file d n fs) = d

abbrev pub name : File → String
name (file d n fs) = n

abbrev pub child_file : File → Files
child_file (file d n fs) = fs

pub append : Files → Files → Files
append no_files gs = gs
append (add f fs) gs = add f (append fs gs)

pub add_child : File → Files → File
unfolding append
add_child (file d n fs) gs = file d n (append fs gs)

-- The lines of the listing.
pub data Line : Type 0 where
  into_dir : String → Line
  file_name : (dir_name file_name : String) → Line

mutual
  pub check_file : File → List Line
  check_file (file d n fs) = into_dir n ∷ check_children n fs

  pub check_children : String → Files → List Line
  check_children n no_files = []
  check_children n (add v vs) =
      (elim (is_dir v) [ true ↦ check_file v | false ↦ file_name n (name v) ∷ [] ])
      ++ check_children n vs
