-- ===== src/BuildSymtable/Redeclared.antt =====
-- build_symtable.c: a name that is declared twice in a scope.
use mathlib.Core.Path.{subst}
use dp4c.Prelude.{
  ℕ, ◌*◌, ◌≤◌, ◌≡◌, ◌≢◌, List, [], true, false, some, ◌∙◌, refl, ok, failed, error, redeclared,
}
use dp4c.Basic.Strings.{str_eq_refl}
use dp4c.Symtable.Entries.{Symbol, Symtable, ident}
use dp4c.Symtable.Table.{pages}
use dp4c.Symtable.Declare.{name_is_declared, new_ident}
use dp4c.Symtable.Full.{IsTable, Updates}
use dp4c.Symtable.Names.{entry_of, name_is_declared-ident, name_is_declared-new_ident}
use dp4c.Syntax.Tree.{Tree}
use dp4c.BuildSymtable.Names.{value_at, as_string, name_node, line_of, id_of, declare_ident}

-- The node of a declaration's name, and the name.
pub record Named (decl name : Tree) (strname : List ℕ) : Type 0 where
  pub node_there : name_node decl ≡ ok name
  pub string_there : as_string (value_at "name" name) ≡ ok strname

-- In a table with its invariant, whose pointers fit into the pages of the temporary array of a growth
-- before and behind each of the two calls, a declaration of an identifier that is not in the scope
-- returns what `new_ident` does, and a second one of the same name, which is not empty, is refused as
-- redeclared at the line of the second name.
pub second_declaration_refused :
    (page_size : ℕ) (a b na nb : Tree) (strname : List ℕ) (t t1 t2 : Symtable ℕ) (s : Symbol ℕ)
    → Named a na strname
    → Named b nb strname
    → strname ≢ []
    → IsTable t
    → 8 * t.capacity ≤ pages page_size t.capacity
    → name_is_declared page_size strname ident t ≡ ok (false, t1)
    → 8 * t1.capacity ≤ pages page_size t1.capacity
    → new_ident page_size strname (some (id_of a)) t1 ≡ ok (s, t2)
    → 8 * t2.capacity ≤ pages page_size t2.capacity
    → (declare_ident page_size a t ≡ ok t2)
      × (declare_ident page_size b t2 ≡ failed (error (redeclared (line_of nb) strname)))
unfolding declare_ident
second_declaration_refused page_size a b na nb strname t t1 t2 s ha hb n table room looked room1 run
      room2 =
    let (u, run', updates) = name_is_declared-ident page_size strname t table n room in
    let same : u ≡ t1 = cc in
    let v = subst (Updates t strname (entry_of t strname)) same updates in
    let (last, seen) =
      name_is_declared-new_ident page_size strname strname (some (id_of a)) t1 t2 s v.table n n
        room1 run room2 in
    let again : name_is_declared page_size strname ident t2 ≡ ok (true, last) =
      seen ∙ rw (str_eq_refl strname) refl in
    (
      rw ha.node_there (rw ha.string_there (rw looked (rw run))),
      rw hb.node_there (rw hb.string_there (rw again)),
    )
