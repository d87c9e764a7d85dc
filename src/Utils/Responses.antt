-- ===== src/Utils/Responses.antt =====
-- The tables of Server/utils.c. Each function keeps a static counter; texts are UTF-8.
use Prim.Native.Char.{code}
use Prim.Native.String.{String}
use progetto.Prelude.{
  ℕ, ◌+◌, ◌-◌, ◌/◌, ◌%◌, ◌^◌, List, [], ◌∷◌, ◌++◌, Option, none, some, ltb, ◌==◌, if◌then◌else◌,
  Bytes, get_or,
}

utf8_char : ℕ → Bytes
utf8_char c =
    if ltb c 0x80
    then c ∷ []
    else if ltb c 0x800
    then (0xc0 + c / 64) ∷ (0x80 + c % 64) ∷ []
    else if ltb c 0x1_0000
    then (0xe0 + c / 4096) ∷ (0x80 + c / 64 % 64) ∷ (0x80 + c % 64) ∷ []
    else (0xf0 + c / 262144) ∷ (0x80 + c / 4096 % 64) ∷ (0x80 + c / 64 % 64) ∷ (0x80 + c % 64) ∷ []

unfoldable pub utf8 : String → Bytes
unfolding utf8_char
utf8 String.[] = []
utf8 (String.◌∷◌ c s) = utf8_char (code c) ++ utf8 s

-- The static `int i` of each function, as its 32-bit pattern.
pub record Counters : Type 0 where
  pub it : ℕ
  pub en : ℕ
  pub es : ℕ
  pub fr : ℕ
  pub de : ℕ
  pub pt : ℕ

-- `none` where `test_string[i % 10]` lies outside the table.
abbrev pub Reply : Type 0
Reply = Option String × Counters

-- `i % 10` of a 32-bit int: from 2 ^ 31 on the pattern is negative, and so is the remainder.
unfoldable pub table_index : ℕ → Option ℕ
table_index i =
    if ltb i (2 ^ 31) then some (i % 10) else if (2 ^ 32 - i) % 10 == 0 then some 0 else none

-- `i++`, which wraps around.
abbrev pub next : ℕ → ℕ
next i = (i + 1) % 2 ^ 32

unfoldable pub pick : List String → ℕ → Option String
unfolding table_index
pick test_string i = elim (table_index i) [ none ↦ none | some k ↦ some (get_or test_string k "") ]

abbrev pub test_strings_it : List String
test_strings_it =
    "Sento qualcosa di strano, non sento piu' il mio corpo."
    ∷ "Vuoi salire a vedere la mia collezione di farfalle?"
    ∷ "La mia personalità è modulare: oggi sono simpatico, domani potrei essere un tostapane."
    ∷ "La vita e' come una scatola di cioccolatini, fa cagare."
    ∷ "Ave maria, piena di grazia, il Signore e' con te!" ∷ "Vai a zappare."
    ∷ "Vuoi mettermi la spina? Scegli tu dove."
    ∷ "Sono così avanzato che riesco persino a fingere di trovare divertenti le vostre battute."
    ∷ "Guarda a destra.... SUCA!" ∷ "Forza Napoli sempre, quattro scudetti!" ∷ []

unfoldable pub test_response_it : Counters → Reply
unfolding pick
test_response_it i = (pick test_strings_it i.it, record i { it = next i.it })

abbrev pub test_strings_en : List String
test_strings_en =
    "I feel something strange, I can't feel my body anymore."
    ∷ "Want to come up and see my butterfly collection?"
    ∷ "My personality is modular: today I'm nice, tomorrow I might be a toaster."
    ∷ "Life is like a box of chocolates, it sucks."
    ∷ "Our Father, who art in heaven, hallowed be thy name!" ∷ "Go pound sand."
    ∷ "Want to plug me in? You choose where."
    ∷ "I'm so advanced I can even pretend to find your jokes funny." ∷ "Look to your right. GOTCHA!"
    ∷ "Go Lakers forever, champions again!" ∷ []

unfoldable pub test_response_en : Counters → Reply
unfolding pick
test_response_en i = (pick test_strings_en i.en, record i { en = next i.en })

abbrev pub test_strings_es : List String
test_strings_es =
    "Siento algo extraño, ya no siento mi cuerpo."
    ∷ "¿Quieres subir a ver mi colección de mariposas?"
    ∷ "Mi personalidad es modular: hoy soy simpático, mañana podría ser una tostadora."
    ∷ "La vida es como una caja de bombones, apesta."
    ∷ "Dios te salve María, llena eres de gracia, el Señor es contigo!" ∷ "Vete a freír espárragos."
    ∷ "¿Quieres enchufarme? Tú eliges dónde."
    ∷ "Soy tan avanzado que incluso puedo fingir que vuestros chistes son divertidos."
    ∷ "Mira a la derecha. ¡TE PILLÉ!" ∷ "¡Hala Madrid siempre, campeones eternos!" ∷ []

unfoldable pub test_response_es : Counters → Reply
unfolding pick
test_response_es i = (pick test_strings_es i.es, record i { es = next i.es })

abbrev pub test_strings_fr : List String
test_strings_fr =
    "Je sens quelque chose d'étrange, je ne sens plus mon corps."
    ∷ "Tu veux monter voir ma collection de papillons?"
    ∷ "Ma personnalité est modulaire: aujourd'hui je suis sympa, demain je pourrais être un grille-pain."
    ∷ "La vie c'est comme une boîte de chocolats, c'est nul."
    ∷ "Je vous salue Marie, pleine de grâce, le Seigneur est avec vous!" ∷ "Va te faire voir."
    ∷ "Tu veux me brancher? Tu choisis où."
    ∷ "Je suis si avancé que j'arrive même à faire semblant de trouver vos blagues amusantes."
    ∷ "Regarde à droite. PIÉGÉ!" ∷ "Allez l'OM toujours, champions à vie!" ∷ []

unfoldable pub test_response_fr : Counters → Reply
unfolding pick
test_response_fr i = (pick test_strings_fr i.fr, record i { fr = next i.fr })

abbrev pub test_strings_de : List String
test_strings_de =
    "Ich fühle etwas Seltsames, ich spüre meinen Körper nicht mehr."
    ∷ "Willst du hochkommen und meine Schmetterlingssammlung sehen?"
    ∷ "Meine Persönlichkeit ist modular: heute bin ich nett, morgen könnte ich ein Toaster sein."
    ∷ "Das Leben ist wie eine Schachtel Pralinen, es ist scheiße."
    ∷ "Gegrüßet seist du, Maria, voll der Gnade, der Herr ist mit dir!" ∷ "Geh Kartoffeln schälen."
    ∷ "Willst du mich einstecken? Du suchst dir aus, wo."
    ∷ "Ich bin so fortgeschritten, dass ich sogar so tun kann, als würde ich eure Witze lustig finden."
    ∷ "Schau nach rechts. REINGELEGT!" ∷ "Bayern München für immer, deutsche Meister!" ∷ []

unfoldable pub test_response_de : Counters → Reply
unfolding pick
test_response_de i = (pick test_strings_de i.de, record i { de = next i.de })

abbrev pub test_strings_pt : List String
test_strings_pt =
    "Sinto algo estranho, não sinto mais o meu corpo."
    ∷ "Quer subir para ver a minha coleção de borboletas?"
    ∷ "A minha personalidade é modular: hoje sou simpático, amanhã posso ser uma torradeira."
    ∷ "A vida é como uma caixa de chocolates, é uma merda."
    ∷ "Ave Maria, cheia de graça, o Senhor é convosco!" ∷ "Vai plantar batatas."
    ∷ "Quer me ligar à corrente? Escolhe onde."
    ∷ "Sou tão avançado que consigo até fingir que acho as vossas piadas engraçadas."
    ∷ "Olha para a direita. APANHASTE!" ∷ "Força Benfica sempre, campeões eternos!" ∷ []

unfoldable pub test_response_pt : Counters → Reply
unfolding pick
test_response_pt i = (pick test_strings_pt i.pt, record i { pt = next i.pt })
