-- ===== src/Patterns/Composite/Laws.antt =====
-- What the listing of a directory has.
use awesome_patterns.Base.{
  ◌≡◌, refl, sym, ap, ◌∙◌, String, true, false, [], ◌∷◌, ◌++◌, append_assoc,
}
use awesome_patterns.Patterns.Composite.{
  File, file, Files, no_files, add, is_dir, name, append, add_child, into_dir, file_name,
  check_file, check_children,
}

check_children-append :
    (n : String) (fs gs : Files)
    → check_children n (append fs gs) ≡ check_children n fs ++ check_children n gs
unfolding check_children append
check_children-append n no_files gs = refl
check_children-append n (add v vs) gs =
    ap (λ ls. (elim (is_dir v) [ true ↦ check_file v | false ↦ file_name n (name v) ∷ [] ]) ++ ls)
      (check_children-append n vs gs)
    ∙ sym (
        append_assoc (elim (is_dir v) [ true ↦ check_file v | false ↦ file_name n (name v) ∷ [] ])
          (check_children n vs) (check_children n gs))

-- Children that are added to a directory are listed after everything that was listed of it, under
-- the directory's name.
pub check_file-add_child :
    (f : File) (gs : Files)
    → check_file (add_child f gs) ≡ check_file f ++ check_children (name f) gs
unfolding check_file add_child
check_file-add_child (file d n fs) gs = ap (λ ls. into_dir n ∷ ls) (check_children-append n fs gs)
