-- ===== src/Tests/Lexing.antt =====
-- The theorems on the lexer at concrete texts.
use dp4c.Prelude.{ℕ, List, [], codes, ◌≡◌, ◌≤◌, refl, arith, length, ok, failed, assertion, Ensures}
use dp4c.Token.{identifier, comment, string_literal, zero_token}
use dp4c.Basic.{cstr_is_letter}
use dp4c.Lex.Chars.{Lexer, lexeme_to_cstring}
use dp4c.Lex.Machine.{next_token, lex_tokenize}
use dp4c.Lex.Stream.{lex_tokenize-IsStream, IsStream}
use dp4c.Lex.Steps.Run.{next_token-HasRead, HasRead}
use dp4c.Lex.Scan.{span}
use dp4c.Lex.Words.{next_token-word, word, word_char}
use dp4c.Lex.Comments.{next_token_line_comment, next_token_line_comment_at_end}
use dp4c.Lex.Literals.{next_token_string, next_token_string_at_end}

abbrev lexer_of : List ℕ → Lexer
lexer_of text = record {
  text = text;
  start = 0;
  stop = 0;
  number = record { start = 0; stop = 0 };
  line_nr = 1;
  tokens = [];
}

lex_tokenize-IsStream_example :
    Ensures
      (λ l.
        (l.text ≡ codes "a << 8w255;")
        × (l.stop ≤ length (codes "a << 8w255;"))
        × IsStream l.tokens)
      (lex_tokenize (codes "a << 8w255;"))
lex_tokenize-IsStream_example = lex_tokenize-IsStream (codes "a << 8w255;")

next_token-HasRead_example :
    Ensures
      (λ r. HasRead (lexer_of (codes "=>")) r.1 r.0 × (r.0.line_nr ≡ r.1.line_nr))
      (next_token (lexer_of (codes "=>")))
next_token-HasRead_example = next_token-HasRead (lexer_of (codes "=>")) refl

next_token-word_example :
    next_token (lexer_of (codes "ab_1 c"))
    ≡ ok (
      record zero_token {
        klass = identifier;
        lexeme = word (lexer_of (codes "ab_1 c"));
        line_nr = 1;
      },
      record (lexer_of (codes "ab_1 c")) { start = 4; stop = 4 },
    )
unfolding span word_char cstr_is_letter
next_token-word_example = next_token-word (lexer_of (codes "ab_1 c")) refl refl

next_token_line_comment_example :
    next_token (lexer_of (codes "// x\ny"))
    ≡ ok (
      record zero_token { klass = comment; lexeme = codes "// x\n"; line_nr = 2 },
      record (lexer_of (codes "// x\ny")) { start = 5; stop = 5; line_nr = 2 },
    )
unfolding lexeme_to_cstring span
next_token_line_comment_example =
    next_token_line_comment (lexer_of (codes "// x\ny")) refl refl (omega arith) (omega arith)

next_token_line_comment_at_end_example : next_token (lexer_of (codes "// x")) ≡ failed assertion
unfolding span
next_token_line_comment_at_end_example =
    next_token_line_comment_at_end (lexer_of (codes "// x")) refl refl (omega arith) (omega arith)

next_token_string_example :
    next_token (lexer_of (codes "\"a\\\"b\""))
    ≡ ok (
      record zero_token { klass = string_literal; lexeme = codes "\"a\""; line_nr = 1 },
      record (lexer_of (codes "\"a\\\"b\"")) { start = 3; stop = 3 },
    )
unfolding lexeme_to_cstring span
next_token_string_example =
    next_token_string (lexer_of (codes "\"a\\\"b\"")) refl (omega arith) (omega arith)

next_token_string_at_end_example : next_token (lexer_of (codes "\"ab")) ≡ failed assertion
unfolding span
next_token_string_at_end_example =
    next_token_string_at_end (lexer_of (codes "\"ab")) refl (omega arith) (omega arith)
