-- ===== src/Examples/Daytime/Laws.antt =====
-- The client of examples/inet_daytime_client.c at a server with baa_daytime_server_th of src/network.c.
use libbaalue.Prelude.{
  ℕ, suc, ◌+◌, ◌<◌, ◌≡◌, ◌≢◌, refl, ap, ◌∙◌, sym, false, Option, none, some, List, [], ◌∷◌, ◌++◌,
  append_assoc, map, All, arith, ◌==◌, length, length-append, take, take_all, length-take_le, drop,
  replicate, write, write-append, pos, negsuc, eqb_ℤ, eqb_ℤ_ne,
}
use mathlib.Core.List.{map-append}
use libbaalue.Protocol.{baa_maxline}
use libbaalue.Helper.ReadLine
use libbaalue.Helper.ReadLine.{Read, byte, eof, newline, baa_read_line, baa_file_empty}
use libbaalue.Helper.Lines.{NoNewline, baa_read_line_lem}
use libbaalue.Network.Daytime.{daytime_text}
use libbaalue.Examples.Mgmt.{InetOs, connected}
use libbaalue.Examples.Program.{
  c_string, Event, message, number, line, close, sleep, inet, Run, waits, faults, goes_on, Env,
}
use libbaalue.Examples.Daytime.{stream_client, terminate, show_line, read_time, client_loop}

abbrev pub NoNul : List ℕ → Type 0
NoNul = All (λ b. b ≢ 0)

c_string_lem : (text rest : List ℕ) → NoNul text → c_string (text ++ 0 ∷ rest) ≡ text
c_string_lem [] rest h = refl
c_string_lem (b ∷ text) rest h =
    let other : (b == 0) ≡ false = ground (arith, h.0) in rw (other, c_string_lem text rest h.1)

-- A line of text with its newline, in a buffer of at least its length and a byte.
show_line_lem :
    (text rest : List ℕ)
    → NoNul text
    → show_line (ReadLine.returned (pos (suc (length text))) ((text ++ newline ∷ []) ++ 0 ∷ rest))
      ≡ goes_on tt (number (suc (length text)) ∷ line text ∷ [])
unfolding show_line terminate
show_line_lem text rest h =
    let at : write (text ++ newline ∷ 0 ∷ rest) (length text) 0 ≡ some (text ++ 0 ∷ 0 ∷ rest) =
      write-append text newline (0 ∷ rest) 0 in
    let fd : eqb_ℤ (pos (suc (length text))) (negsuc 0) ≡ false = ground arith in
    rw append_assoc (rw (at, c_string_lem text (0 ∷ rest) h, fd))

shown_as :
    (text s buf : List ℕ)
    → s ≡ text ++ newline ∷ []
    → length text < 253
    → NoNul text
    → show_line (
        ReadLine.returned
          (pos (length (take 253 s)))
          (take 253 s ++ 0 ∷ drop (suc (length (take 253 s))) buf))
      ≡ goes_on tt (number (suc (length text)) ∷ line text ∷ [])
shown_as text s buf e short no_nul =
    let len : length s ≡ suc (length text) =
      rw e (omega (arith, length-append text (newline ∷ []))) in
    let whole : take 253 s ≡ s = take_all s 253 (omega arith) in
    rw (whole, len, e) (show_line_lem text _ no_nul)

read_time_of :
    (reads : List Read) (l : ReadLine.Line)
    → baa_read_line reads (replicate (baa_maxline + 1) 0) baa_maxline ≡ some l
    → read_time reads ≡ show_line l
unfolding read_time
read_time_of reads l e =
    ap
      (λ (r : Option ReadLine.Line).
        let run : Run (Unit {0}) = elim r [ none ↦ faults [] | some l ↦ show_line l ] in run)
      e

read_time_lem :
    (b : ℕ) (text : List ℕ) (rest : List Read)
    → NoNewline (b ∷ text)
    → NoNul (b ∷ text)
    → length (b ∷ text) < 253
    → read_time (map byte (b ∷ text) ++ byte newline ∷ rest)
      ≡ goes_on tt (number (suc (length (b ∷ text))) ∷ line (b ∷ text) ∷ [])
read_time_lem b text rest no_newline no_nul short =
    let buf = replicate 255 0 in
    let run =
      (baa_read_line_lem 253 buf (omega arith) (omega arith) b text rest no_newline
        (omega arith)).0 in
    read_time_of _ _ run ∙ shown_as (b ∷ text) _ buf refl short no_nul

-- A connection to a server that closes it before it writes anything.
read_time-eof : (rest : List Read) → read_time (eof ∷ rest) ≡ faults []
unfolding read_time baa_read_line show_line terminate
read_time-eof rest = refl

-- A connection to a server that writes the time `ctime`, and what the client does with it.
abbrev pub Connection : Type 0
Connection = InetOs × List ℕ

abbrev pub turn : Connection → InetOs × List Read
turn (os, ctime) = (os, map byte (daytime_text ctime))

abbrev pub done : List ℕ → List Connection → List Event
done name [] = []
done name ((os, ctime) ∷ more) =
    let date = take 24 ctime ++ 13 ∷ [] in
    message
    ∷ inet (stream_client os name).1
    ∷ number (suc (length date))
    ∷ line date
    ∷ close (stream_client os name).0
    ∷ sleep 2
    ∷ done name more

-- The connection works, and the text of ctime is one: no NUL and no newline among the first 24 bytes.
abbrev pub Works : List ℕ → Connection → Type 0
Works name (os, ctime) =
    ((stream_client os name).0 ≢ negsuc 0) × NoNewline (take 24 ctime) × NoNul (take 24 ctime)

read_date :
    (text : List ℕ)
    → NoNewline text
    → NoNul text
    → 0 < length text
    → length text < 253
    → read_time (map byte (text ++ newline ∷ []))
      ≡ goes_on tt (number (suc (length text)) ∷ line text ∷ [])
read_date [] no_newline no_nul some_text short = absurd (omega arith)
read_date (b ∷ text) no_newline no_nul some_text short =
    rw (map-append byte (b ∷ text) (newline ∷ [])) (read_time_lem b text [] no_newline no_nul short)

All-snoc : (P : ℕ → Type 0) (xs : List ℕ) (x : ℕ) → All P xs → P x → All P (xs ++ x ∷ [])
All-snoc P [] x h p = (p, tt)
All-snoc P (y ∷ xs) x h p = (h.0, All-snoc P xs x h.1 p)

read_daytime :
    (ctime : List ℕ)
    → NoNewline (take 24 ctime)
    → NoNul (take 24 ctime)
    → let date = take 24 ctime ++ 13 ∷ [] in
      read_time (map byte (daytime_text ctime))
      ≡ goes_on tt (number (suc (length date)) ∷ line date ∷ [])
read_daytime ctime no_newline no_nul =
    let d = take 24 ctime in
    let short = length-take_le 24 ctime in
    let len : length (d ++ 13 ∷ []) ≡ suc (length d) = omega (arith, length-append d (13 ∷ [])) in
    let len' : length (d ++ 13 ∷ 10 ∷ []) ≡ suc (suc (length d)) =
      omega (arith, length-append d (13 ∷ 10 ∷ [])) in
    let whole : daytime_text ctime ≡ (d ++ 13 ∷ []) ++ newline ∷ [] =
      take_all (d ++ 13 ∷ 10 ∷ []) 253 (omega arith)
      ∙ sym (append_assoc d (13 ∷ []) (newline ∷ [])) in
    ap (λ text. read_time (map byte text)) whole
    ∙ read_date (d ++ 13 ∷ []) (All-snoc (λ b. b ≢ newline) d 13 no_newline (omega arith))
        (All-snoc (λ b. b ≢ 0) d 13 no_nul (omega arith)) (omega arith) (omega arith)

-- For every sequence of connections that work, each to a server that writes the text of
-- baa_daytime_server_th, the client prints for each the first 24 bytes of ctime with a carriage return
-- behind them, closes the connection and sleeps 2 seconds; and if the server of a further connection
-- closes it before it writes, the client then writes in front of its array, which C leaves undefined.
pub client_loop_lem :
    (env : Env) (name : List ℕ) (connections : List Connection) (os : InetOs) (rest : List Read)
    (more : List (InetOs × List Read))
    → All (Works name) connections
    → (stream_client os name).0 ≢ negsuc 0
    → (client_loop env name (map turn connections) ≡ waits (done name connections))
      × (client_loop env name (map turn connections ++ (os, eof ∷ rest) ∷ more)
          ≡ faults (done name connections ++ message ∷ inet (stream_client os name).1 ∷ []))
unfolding client_loop connected
client_loop_lem env name [] os rest more works open_fd =
    (refl, rw (eqb_ℤ_ne _ _ open_fd, read_time-eof rest))
client_loop_lem env name ((os', ctime) ∷ connections) os rest more works open_fd =
    let (w, f) = client_loop_lem env name connections os rest more works.1 open_fd in
    let (fd, no_newline, no_nul) = works.0 in
    let shows = read_daytime ctime no_newline no_nul in
    (rw (eqb_ℤ_ne _ _ fd, shows, w), rw (eqb_ℤ_ne _ _ fd, shows, f))
