-- ===== src/Syntax/Build/Stands.antt =====
-- build_ast.c: a state whose `token` is of a known class.
use dp4c.Prelude.{ℕ, ◌+◌, ◌≡◌, some, ok}
use dp4c.Token.{Token, TokenClass}
use dp4c.Chain.{at}
use dp4c.Syntax.Build.{BuildState, lift, token, klass, pure, ◌>>=◌}

-- `token` points to a token of the class `k`.
pub record Stands (k : TokenClass) (s : BuildState) : Type 0 where
  pub index : ℕ
  pub token_there : Token
  pub points : s.parser.token ≡ some index
  pub reads : at s.parser.tokens index ≡ ok token_there
  pub is_klass : token_there.klass ≡ k

-- The state behind a node that has been counted.
abbrev pub counted : BuildState → BuildState
counted s = record s { node_id = s.node_id + 1; node_count = s.node_count + 1 }

module _ {k : TokenClass} (s : BuildState) (h : Stands k s) where
  pub counted-Stands : Stands k (counted s)
  counted-Stands = record {
    index = h.index;
    token_there = h.token_there;
    points = h.points;
    reads = h.reads;
    is_klass = h.is_klass;
  }

  pub token_at : token s ≡ ok (h.token_there, s)
  unfolding token lift
  token_at = rw h.points (rw h.reads)

  pub klass_at : klass s ≡ ok (k, s)
  unfolding klass ◌>>=◌ pure
  klass_at = rw token_at (rw h.is_klass)
