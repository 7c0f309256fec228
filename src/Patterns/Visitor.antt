-- ===== src/Patterns/Visitor.antt =====
-- behavioral/visitor/main.go: hosts that accept the visits of two visitors.
use awesome_patterns.Base.{ℕ, String, Bool, List, [], ◌∷◌}

pub data Host : Type 0 where
  player_host : (name : String) (level : ℕ) → Host
  npc_host : (name : String) (is_immortal : Bool) → Host
  object_host : (name : String) (price : ℕ) → Host

-- A visitor: what it does with each kind of host.
pub record Visitor (R : Type 0) : Type 0 where
  pub visit_player : String → ℕ → R
  pub visit_npc : String → Bool → R
  pub visit_object : String → ℕ → R

pub accept : {R : Type 0} → Host → Visitor R → R
accept (player_host n l) v = v.visit_player n l
accept (npc_host n i) v = v.visit_npc n i
accept (object_host n p) v = v.visit_object n p

-- The printed lines.
pub data Line : Type 0 where
  player_line : String → ℕ → Line
  npc_line : String → Bool → Line
  object_line : String → ℕ → Line
  attack attack_npc unsupported_target : String → Line

abbrev pub info_visitor : Visitor Line
info_visitor = record {
  visit_player = player_line;
  visit_npc = npc_line;
  visit_object = object_line;
}

abbrev pub aggressive_visitor : Visitor Line
aggressive_visitor = record {
  visit_player = λ n l. attack n;
  visit_npc = λ n i. attack_npc n;
  visit_object = λ n p. unsupported_target n;
}

-- The loop of `main` over its hosts.
pub visit_all : {R : Type 0} → List Host → Visitor R → List R
unfolding accept
visit_all [] v = []
visit_all (h ∷ hs) v = accept h v ∷ visit_all hs v
