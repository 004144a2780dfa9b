-- ===== src/Openvpn/Mgmt/Reading.antt =====
-- The management interface's bytes, in pieces.
use grace_server.Base.{◌≡◌, refl, sym, ap, false, List, [], ◌∷◌, ◌++◌, append_assoc, Bytes}
use grace_server.Base.Split.{split_at-shrinks, split_at-extends}
use grace_server.Wire.Stream.{IsDecoder, drain_all, drain_all-append}
use grace_server.Openvpn.Mgmt.{State, Reader, parse_line, parse_lines, next_line, handle_read}

next_line-IsDecoder : IsDecoder next_line
unfolding next_line
next_line-IsDecoder = record {
  shrinks = split_at-shrinks 10;
  extends = λ b c a r. split_at-extends 10 b c a r;
}

parse_lines-append :
    (s : State) (ls ms : List Bytes)
    → parse_lines s (ls ++ ms) ≡ (
      (parse_lines (parse_lines s ls).0 ms).0,
      (parse_lines s ls).1 ++ (parse_lines (parse_lines s ls).0 ms).1,
    )
unfolding parse_lines
parse_lines-append s [] ms = refl
parse_lines-append s (l ∷ ls) ms = rw (parse_lines-append (parse_line s l).0 ls ms) (
    ap (λ es. ((parse_lines (parse_lines (parse_line s l).0 ls).0 ms).0, es))
      (sym (append_assoc (parse_line s l).1 _ _)))

-- The management interface's bytes may come in any pieces: two reads do what one read of both does,
-- to the clients, to the buffer and to the effects.
pub handle_read-append :
    (m : Reader) (c d : Bytes)
    → handle_read m (c ++ d) false ≡ (
      (handle_read (handle_read m c false).0 d false).0,
      (handle_read m c false).1 ++ (handle_read (handle_read m c false).0 d false).1,
    )
unfolding handle_read
handle_read-append m c d =
    let left = (drain_all next_line (m.buf ++ c)).1 in
    let whole = drain_all-append next_line next_line-IsDecoder (m.buf ++ c) d in
    rw (sym (append_assoc m.buf c d), whole)
      (ap (λ r. (record { buf = (drain_all next_line (left ++ d)).1; clients = r.0 }, r.1))
        (parse_lines-append m.clients (drain_all next_line (m.buf ++ c)).0
          (drain_all next_line (left ++ d)).0))
