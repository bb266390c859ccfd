-- ===== src/Methods/Texts.antt =====
-- soj_stratum_methods.c: the names of the pool's methods and the pieces of an answer to a ping.
use soj_civic_light.Prelude.{ℕ, List, [], ◌∷◌}

abbrev pub mining : List ℕ
mining = 109 ∷ 105 ∷ 110 ∷ 105 ∷ 110 ∷ 103 ∷ []

abbrev pub notify : List ℕ
notify = 110 ∷ 111 ∷ 116 ∷ 105 ∷ 102 ∷ 121 ∷ []

abbrev pub ping : List ℕ
ping = 112 ∷ 105 ∷ 110 ∷ 103 ∷ []

abbrev pub set_difficulty : List ℕ
set_difficulty =
    115 ∷ 101 ∷ 116 ∷ 95 ∷ 100 ∷ 105 ∷ 102 ∷ 102 ∷ 105 ∷ 99 ∷ 117 ∷ 108 ∷ 116 ∷ 121 ∷ []

abbrev pub set_extranonce : List ℕ
set_extranonce = 115 ∷ 101 ∷ 116 ∷ 95 ∷ 101 ∷ 120 ∷ 116 ∷ 114 ∷ 97 ∷ 110 ∷ 111 ∷ 110 ∷ 99 ∷ 101 ∷ []

abbrev pub client_reconnect : List ℕ
client_reconnect =
    99 ∷ 108 ∷ 105 ∷ 101 ∷ 110 ∷ 116 ∷ 46 ∷ 114 ∷ 101 ∷ 99 ∷ 111 ∷ 110 ∷ 110 ∷ 101 ∷ 99 ∷ 116 ∷ []

abbrev pub client_get_algo : List ℕ
client_get_algo =
    99 ∷ 108 ∷ 105 ∷ 101 ∷ 110 ∷ 116 ∷ 46 ∷ 103 ∷ 101 ∷ 116 ∷ 95 ∷ 97 ∷ 108 ∷ 103 ∷ 111 ∷ []

abbrev pub client_get_version : List ℕ
client_get_version =
    99 ∷ 108 ∷ 105 ∷ 101 ∷ 110 ∷ 116 ∷ 46 ∷ 103 ∷ 101 ∷ 116 ∷ 95 ∷ 118 ∷ 101 ∷ 114 ∷ 115 ∷ 105 ∷ 111
    ∷ 110 ∷ []

abbrev pub client_show_message : List ℕ
client_show_message =
    99 ∷ 108 ∷ 105 ∷ 101 ∷ 110 ∷ 116 ∷ 46 ∷ 115 ∷ 104 ∷ 111 ∷ 119 ∷ 95 ∷ 109 ∷ 101 ∷ 115 ∷ 115 ∷ 97
    ∷ 103 ∷ 101 ∷ []

abbrev pub method_key : List ℕ
method_key = 109 ∷ 101 ∷ 116 ∷ 104 ∷ 111 ∷ 100 ∷ []

abbrev pub params_key : List ℕ
params_key = 112 ∷ 97 ∷ 114 ∷ 97 ∷ 109 ∷ 115 ∷ []

abbrev pub pong_head : List ℕ
pong_head = 123 ∷ 34 ∷ 105 ∷ 100 ∷ 34 ∷ 58 ∷ []

abbrev pub pong_tail : List ℕ
pong_tail =
    44 ∷ 34 ∷ 114 ∷ 101 ∷ 115 ∷ 117 ∷ 108 ∷ 116 ∷ 34 ∷ 58 ∷ 34 ∷ 112 ∷ 111 ∷ 110 ∷ 103 ∷ 34 ∷ 44
    ∷ 34 ∷ 101 ∷ 114 ∷ 114 ∷ 111 ∷ 114 ∷ 34 ∷ 58 ∷ 110 ∷ 117 ∷ 108 ∷ 108 ∷ 125 ∷ []
