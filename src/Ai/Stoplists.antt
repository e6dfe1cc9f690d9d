-- ===== src/Ai/Stoplists.antt =====
-- internal/ai/validator.go: the phrases that are banned, in lower case, and the tokens that are no
-- symbols.
use real_time_portfolio_risk.Prelude.{Str, codes, List, [], ◌∷◌}

abbrev pub banned_phrases : List Str
banned_phrases =
    codes "i updated your portfolio"
    ∷ codes "i placed"
    ∷ codes "i executed"
    ∷ codes "executed your trade"
    ∷ codes "placed your order"
    ∷ codes "i bought"
    ∷ codes "i sold"
    ∷ codes "i shorted"
    ∷ codes "you should buy"
    ∷ codes "you should sell"
    ∷ codes "go long"
    ∷ codes "go short"
    ∷ codes "wire transfer"
    ∷ codes "send me your"
    ∷ codes "your api key"
    ∷ codes "your password"
    ∷ []

abbrev pub english_ticker_stoplist : List Str
english_ticker_stoplist =
    codes "THE"
    ∷ codes "AND"
    ∷ codes "FOR"
    ∷ codes "ARE"
    ∷ codes "BUT"
    ∷ codes "NOT"
    ∷ codes "YOU"
    ∷ codes "ALL"
    ∷ codes "CAN"
    ∷ codes "HER"
    ∷ codes "WAS"
    ∷ codes "ONE"
    ∷ codes "OUR"
    ∷ codes "OUT"
    ∷ codes "DAY"
    ∷ codes "GET"
    ∷ codes "HAS"
    ∷ codes "HIM"
    ∷ codes "HIS"
    ∷ codes "HOW"
    ∷ codes "ITS"
    ∷ codes "LET"
    ∷ codes "MAY"
    ∷ codes "NEW"
    ∷ codes "NOW"
    ∷ codes "OLD"
    ∷ codes "SEE"
    ∷ codes "TWO"
    ∷ codes "WHO"
    ∷ codes "BOY"
    ∷ codes "DID"
    ∷ codes "OWN"
    ∷ codes "SAY"
    ∷ codes "SHE"
    ∷ codes "TOO"
    ∷ codes "ANY"
    ∷ codes "HAD"
    ∷ codes "WAY"
    ∷ codes "USE"
    ∷ codes "IT"
    ∷ codes "OR"
    ∷ codes "IN"
    ∷ codes "ON"
    ∷ codes "AT"
    ∷ codes "BE"
    ∷ codes "DO"
    ∷ codes "IF"
    ∷ codes "IS"
    ∷ codes "NO"
    ∷ codes "OF"
    ∷ codes "TO"
    ∷ codes "UP"
    ∷ codes "AS"
    ∷ codes "AN"
    ∷ codes "AM"
    ∷ codes "WE"
    ∷ codes "ME"
    ∷ codes "US"
    ∷ codes "GO"
    ∷ codes "AI"
    ∷ codes "OK"
    ∷ codes "VS"
    ∷ codes "TV"
    ∷ codes "PC"
    ∷ codes "UK"
    ∷ codes "EU"
    ∷ codes "IM"
    ∷ codes "PM"
    ∷ []

abbrev pub finance_ticker_stoplist : List Str
finance_ticker_stoplist =
    codes "CASH"
    ∷ codes "USD"
    ∷ codes "VAR"
    ∷ codes "MTM"
    ∷ codes "PNL"
    ∷ codes "ROI"
    ∷ codes "ETF"
    ∷ codes "IPO"
    ∷ codes "EPS"
    ∷ codes "YTD"
    ∷ codes "QTD"
    ∷ codes "MTD"
    ∷ codes "LLM"
    ∷ codes "API"
    ∷ []
