-- ===== src/Lsp/Framing/Examples.antt =====
-- src/lsp/framing.ts on short streams, with a parser that takes every body as its bytes.
use dsh_hashline_edittool.Base.{arith, ◌≡◌, refl, [], ◌∷◌, ◌++◌, some, codes}
use dsh_hashline_edittool.Lsp.Framing.Header.{found, missing, malformed, parse_content_length}
use dsh_hashline_edittool.Lsp.Framing.{drain, Bytes, read, push}
use dsh_hashline_edittool.Lsp.Framing.Chunks.{prepend, push-append, drain_fuel}

two_headers : parse_content_length (codes "Content-Type: x\r\ncontent-LENGTH:  12 ") ≡ found 12
unfolding parse_content_length
two_headers = refl

no_header : parse_content_length (codes "Content-Type: x") ≡ missing
unfolding parse_content_length
no_header = refl

no_number : parse_content_length (codes "Content-Length: -3") ≡ malformed
unfolding parse_content_length
no_number = refl

abbrev first_chunk : Bytes
first_chunk = codes "Content-Length: 2\r\n\r\n{}Content-Le"

abbrev second_chunk : Bytes
second_chunk = codes "ngth: 1\r\n\r\n1"

first_push :
    push {Message = Bytes} some 100 [] first_chunk ≡ read (codes "Content-Le") (codes "{}" ∷ [])
unfolding push
first_push = refl

push-append_example :
    push {Message = Bytes} some 100 [] (first_chunk ++ second_chunk)
    ≡ prepend (codes "{}" ∷ []) (push some 100 (codes "Content-Le") second_chunk)
push-append_example =
    push-append some 100 [] first_chunk second_chunk (codes "Content-Le") (codes "{}" ∷ [])
      first_push

drain_fuel_example :
    drain {Message = Bytes} some 100 15 second_chunk [] ≡ drain some 100 40 second_chunk []
drain_fuel_example = drain_fuel some 100 15 40 second_chunk [] (omega arith) (omega arith)
