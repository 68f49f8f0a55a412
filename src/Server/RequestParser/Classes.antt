-- ===== src/Server/RequestParser/Classes.antt =====
-- osrm-backend/server/request_parser.cpp: is_char, is_ctl, is_special and is_digit, on a byte.
use maiden.Prelude.{ℕ, Bool, ◌||◌, ◌&&◌, not, leb, ◌==◌}

unfoldable pub is_char : ℕ → Bool
is_char c = leb c 127

unfoldable pub is_ctl : ℕ → Bool
is_ctl c = leb c 31 || (c == 127)

unfoldable pub is_special : ℕ → Bool
is_special c =
    (c == b'(')
    || ((c == b')')
        || ((c == b'<')
            || ((c == b'>')
                || ((c == b'@')
                    || ((c == b',')
                        || ((c == b';')
                            || ((c == b':')
                                || ((c == 92)
                                    || ((c == 34)
                                        || ((c == b'/')
                                            || ((c == b'[')
                                                || ((c == b']')
                                                    || ((c == b'?')
                                                        || ((c == b'=')
                                                            || ((c == b'{')
                                                            || ((c == b'}')
                                                            || ((c == b' ')
                                                            || (c == 9))))))))))))))))))

unfoldable pub is_digit : ℕ → Bool
is_digit c = leb b'0' c && leb c b'9'

-- The negation of the guard `!is_char(input) || is_ctl(input) || is_special(input)`.
unfoldable pub is_token : ℕ → Bool
unfolding is_char is_ctl is_special
is_token c = not (not (is_char c) || (is_ctl c || is_special c))
