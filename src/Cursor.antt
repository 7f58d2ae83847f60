-- ===== src/Cursor.antt =====
-- libs/Server/BookListCursor.cpp: the opaque cursor of a list of books.
pub mod Base64
