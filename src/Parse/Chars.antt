-- ===== src/Parse/Chars.antt =====
-- parse.rs: the classes of bytes that the grammar of HTTP/1 names.
use qhttp.Base.{ℕ, Bool, true, false, not, ltb, leb, ◌==◌, ◌&&◌, ◌||◌, if◌then◌else◌}

abbrev pub cr : ℕ
cr = 13

abbrev pub nl : ℕ
nl = 10

abbrev pub sp : ℕ
sp = 32

abbrev pub htab : ℕ
htab = 9

abbrev pub dq : ℕ
dq = 34

abbrev pub semicolon : ℕ
semicolon = 59

abbrev pub equals : ℕ
equals = 61

unfoldable pub is_char : ℕ → Bool
is_char b = ltb b 128

unfoldable pub is_ctl : ℕ → Bool
is_ctl b = leb b 32 || (b == 127)

unfoldable pub is_hex : ℕ → Bool
is_hex b =
    if leb 97 b && leb b 102
    then true
    else if leb 65 b && leb b 70
    then true
    else if leb 48 b && leb b 57
    then true
    else false

unfoldable pub is_lws : ℕ → Bool
is_lws b = (b == sp) || (b == htab)

unfoldable pub is_lws_full : ℕ → Bool
is_lws_full b = (b == cr) || ((b == nl) || ((b == sp) || (b == htab)))

unfoldable pub is_text : ℕ → Bool
is_text b = (ltb 31 b && ltb b 127) || ltb 159 b

unfoldable pub is_seperator : ℕ → Bool
is_seperator b =
    (b == 40)
    || ((b == 41)
        || ((b == 60)
            || ((b == 62)
                || ((b == 64)
                    || ((b == 44)
                        || ((b == 59)
                            || ((b == 58)
                                || ((b == 92)
                                    || ((b == dq)
                                        || ((b == 47)
                                            || ((b == 91)
                                                || ((b == 93)
                                                    || ((b == 63)
                                                        || ((b == 61)
                                                            || ((b == 123)
                                                            || ((b == 125)
                                                            || ((b == sp)
                                                            || ((b == htab)))))))))))))))))))

unfoldable pub is_token : ℕ → Bool
is_token b = is_char b && (not (is_ctl b) && not (is_seperator b))
